-- ===== src/Page/Chrome.antt =====
-- src/checkout_page.rs: the fixed text of `wrap`, line by line.
use Prim.Native.String.{String}
use spritexai_pay_core.Prelude.{List, [], ◌∷◌}

abbrev pub page_head : List String
page_head =
    "<!doctype html>\n" ∷ "<html lang=\"en\"><head>\n" ∷ "<meta charset=\"utf-8\"/>\n"
    ∷ "<meta name=\"viewport\" content=\"width=device-width, initial-scale=1\"/>\n" ∷ "<title>" ∷ []

abbrev pub page_style : List String
page_style =
    " — SpritexAI Pay</title>\n" ∷ "<style>\n"
    ∷ "  :root { --accent:#6366f1; --ink:#111827; --muted:#6b7280; --line:#e5e7eb; --bg:#f4f5f7; }\n"
    ∷ "  * { box-sizing:border-box; }\n"
    ∷ "  body { margin:0; background:var(--bg); color:var(--ink);\n"
    ∷ "    font-family:-apple-system,BlinkMacSystemFont,'Segoe UI',Roboto,sans-serif;\n"
    ∷ "    display:flex; min-height:100vh; align-items:center; justify-content:center; padding:16px; }\n"
    ∷ "  .card { background:#fff; width:100%; max-width:420px; border-radius:16px; padding:28px;\n"
    ∷ "    box-shadow:0 1px 3px rgba(0,0,0,.06), 0 8px 24px rgba(0,0,0,.05); }\n"
    ∷ "  h1 { font-size:20px; margin:0 0 6px; }\n"
    ∷ "  .muted { color:var(--muted); font-size:14px; line-height:1.5; }\n"
    ∷ "  .small { font-size:12px; }\n"
    ∷ "  .amount { font-size:40px; font-weight:700; letter-spacing:-.02em; }\n"
    ∷ "  .amount .sym { color:var(--muted); font-weight:600; margin-right:2px; }\n"
    ∷ "  .label { font-size:12px; text-transform:uppercase; letter-spacing:.04em; color:var(--muted);\n"
    ∷ "    margin:22px 0 10px; }\n"
    ∷ "  .gateways { display:flex; flex-direction:column; gap:10px; }\n"
    ∷ "  .gw { display:flex; justify-content:space-between; align-items:center; width:100%;\n"
    ∷ "    background:#fff; border:1.5px solid var(--line); border-radius:12px; padding:14px 16px;\n"
    ∷ "    cursor:pointer; font-size:15px; transition:border-color .15s, background .15s; }\n"
    ∷ "  .gw:hover { border-color:var(--accent); background:#fafaff; }\n"
    ∷ "  .gw-name { font-weight:600; }\n"
    ∷ "  .gw-num { color:var(--muted); font-family:ui-monospace,monospace; font-size:13px; }\n"
    ∷ "  .steps { margin-top:18px; display:flex; flex-direction:column; gap:14px; }\n"
    ∷ "  .step { display:flex; gap:10px; align-items:flex-start; font-size:14px; line-height:1.5; }\n"
    ∷ "  .step span { flex:0 0 22px; height:22px; border-radius:50%; background:#eef2ff; color:var(--accent);\n"
    ∷ "    font-size:12px; font-weight:700; display:inline-flex; align-items:center; justify-content:center; }\n"
    ∷ "  .number-box { display:flex; align-items:center; gap:8px; background:#f9fafb; border:1px solid var(--line);\n"
    ∷ "    border-radius:10px; padding:12px 14px; }\n"
    ∷ "  .number { font-family:ui-monospace,monospace; font-size:18px; font-weight:600; flex:1; }\n"
    ∷ "  .copy, .submit { background:var(--accent); color:#fff; border:0; border-radius:8px;\n"
    ∷ "    padding:8px 14px; font-size:13px; font-weight:600; cursor:pointer; }\n"
    ∷ "  .waiting { display:flex; align-items:center; gap:10px; margin-top:22px; font-size:14px; color:var(--muted); }\n"
    ∷ "  .spinner { width:16px; height:16px; border:2px solid var(--line); border-top-color:var(--accent);\n"
    ∷ "    border-radius:50%; animation:spin 1s linear infinite; }\n"
    ∷ "  @keyframes spin { to { transform:rotate(360deg); } }\n"
    ∷ "  .manual { margin-top:20px; border-top:1px solid var(--line); padding-top:16px; }\n"
    ∷ "  .manual summary { cursor:pointer; font-size:14px; color:var(--accent); }\n"
    ∷ "  .manual input { display:block; width:100%; margin-top:10px; padding:11px 13px;\n"
    ∷ "    border:1px solid var(--line); border-radius:9px; font-size:14px; }\n"
    ∷ "  .manual .submit { margin-top:10px; }\n"
    ∷ "  .success { font-size:44px; color:#16a34a; text-align:center; }\n"
    ∷ "  #done { text-align:center; }\n"
    ∷ "  .brand { text-align:center; margin-top:18px; color:var(--muted); font-size:12px; }\n"
    ∷ "</style></head>\n" ∷ "<body>\n" ∷ "  <div>" ∷ []

abbrev pub page_foot : List String
page_foot =
    "\n" ∷ "    <div class=\"brand\">Secured by <b>SpritexAI Pay</b></div>\n" ∷ "  </div>\n"
    ∷ "</body></html>" ∷ []
