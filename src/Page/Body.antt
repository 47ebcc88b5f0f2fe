-- ===== src/Page/Body.antt =====
-- src/checkout_page.rs: the fixed text of the card and of its script, line by line.
use Prim.Native.String.{String}
use spritexai_pay_core.Prelude.{List, [], ◌∷◌}

abbrev pub card_open : List String
card_open = "<div class=\"card\">\n" ∷ "      <div class=\"amount\"><span class=\"sym\">" ∷ []

abbrev pub symbol_close : List String
symbol_close = "</span>" ∷ []

abbrev pub pick_open : List String
pick_open =
    "</div>\n" ∷ "      <p class=\"muted\">Complete your payment to continue.</p>\n" ∷ "\n"
    ∷ "      <div id=\"pick\">\n" ∷ "        <div class=\"label\">Pay with</div>\n"
    ∷ "        <div class=\"gateways\">" ∷ []

abbrev pub instructions_open : List String
instructions_open =
    "</div>\n" ∷ "      </div>\n" ∷ "\n"
    ∷ "      <div id=\"instructions\" style=\"display:none\">\n" ∷ "        <div class=\"steps\">\n"
    ∷ "          <div class=\"step\"><span>1</span> Open your <b id=\"gw-label\"></b> app and choose <b>Send Money</b>.</div>\n"
    ∷ "          <div class=\"step\"><span>2</span> Send exactly <b>" ∷ []

abbrev pub instructions_rest : List String
instructions_rest =
    "</b> to this number:</div>\n" ∷ "          <div class=\"number-box\">\n"
    ∷ "            <span id=\"recv-number\" class=\"number\"></span>\n"
    ∷ "            <button id=\"copy\" class=\"copy\">Copy</button>\n" ∷ "          </div>\n"
    ∷ "          <div class=\"step\"><span>3</span> Keep this page open — we confirm your payment automatically.</div>\n"
    ∷ "        </div>\n" ∷ "\n" ∷ "        <div class=\"waiting\">\n"
    ∷ "          <span class=\"spinner\"></span>\n"
    ∷ "          <span id=\"status-text\">Waiting for your payment…</span>\n" ∷ "        </div>\n"
    ∷ "\n" ∷ "        <details class=\"manual\">\n"
    ∷ "          <summary>Already paid? Enter your Transaction ID</summary>\n"
    ∷ "          <input id=\"trx\" placeholder=\"TrxID (e.g. BGL7AH92KX)\" />\n"
    ∷ "          <input id=\"sender\" placeholder=\"Your number (optional)\" />\n"
    ∷ "          <button id=\"submit-trx\" class=\"submit\">Submit</button>\n"
    ∷ "          <p id=\"manual-note\" class=\"muted small\"></p>\n" ∷ "        </details>\n"
    ∷ "      </div>\n" ∷ "\n" ∷ "      <div id=\"done\" style=\"display:none\">\n"
    ∷ "        <div class=\"success\">✓</div>\n" ∷ "        <h1>Payment confirmed</h1>\n"
    ∷ "        <p class=\"muted\">Redirecting you back…</p>\n" ∷ "      </div>\n" ∷ "    </div>\n"
    ∷ "\n" ∷ "    <script>\n" ∷ "      const payRef = " ∷ []

abbrev pub reference_close : List String
reference_close = ";\n" ∷ "      const returnUrl = " ∷ []

abbrev pub script_rest : List String
script_rest =
    ";\n" ∷ "      let selected = null;\n" ∷ "\n"
    ∷ "      document.querySelectorAll('.gw').forEach(btn => {\n"
    ∷ "        btn.addEventListener('click', () => {\n"
    ∷ "          selected = btn.dataset.gateway;\n"
    ∷ "          document.getElementById('gw-label').textContent = btn.querySelector('.gw-name').textContent;\n"
    ∷ "          document.getElementById('recv-number').textContent = btn.dataset.number || '—';\n"
    ∷ "          document.getElementById('pick').style.display = 'none';\n"
    ∷ "          document.getElementById('instructions').style.display = 'block';\n"
    ∷ "          fetch('/v1/checkout/' + payRef + '/select', {\n"
    ∷ "            method: 'POST', headers: {'content-type':'application/json'},\n"
    ∷ "            body: JSON.stringify({gateway: selected})\n" ∷ "          }).catch(()=>{});\n"
    ∷ "        });\n" ∷ "      });\n" ∷ "\n"
    ∷ "      const copyBtn = document.getElementById('copy');\n"
    ∷ "      if (copyBtn) copyBtn.addEventListener('click', () => {\n"
    ∷ "        const n = document.getElementById('recv-number').textContent;\n"
    ∷ "        navigator.clipboard.writeText(n).then(() => {\n"
    ∷ "          copyBtn.textContent = 'Copied';\n"
    ∷ "          setTimeout(() => copyBtn.textContent = 'Copy', 1500);\n" ∷ "        });\n"
    ∷ "      });\n" ∷ "\n" ∷ "      const submitTrx = document.getElementById('submit-trx');\n"
    ∷ "      if (submitTrx) submitTrx.addEventListener('click', () => {\n"
    ∷ "        const trx = document.getElementById('trx').value.trim();\n"
    ∷ "        if (!trx) return;\n" ∷ "        fetch('/v1/checkout/' + payRef + '/claim', {\n"
    ∷ "          method: 'POST', headers: {'content-type':'application/json'},\n"
    ∷ "          body: JSON.stringify({trx_id: trx, sender: document.getElementById('sender').value.trim() || null})\n"
    ∷ "        }).then(() => {\n"
    ∷ "          document.getElementById('manual-note').textContent =\n"
    ∷ "            'Thanks — we recorded it. Confirmation still completes automatically once your SMS arrives.';\n"
    ∷ "        }).catch(()=>{});\n" ∷ "      });\n" ∷ "\n" ∷ "      function finish() {\n"
    ∷ "        document.getElementById('instructions').style.display = 'none';\n"
    ∷ "        document.getElementById('pick').style.display = 'none';\n"
    ∷ "        document.getElementById('done').style.display = 'block';\n"
    ∷ "        if (returnUrl && returnUrl !== '--') setTimeout(() => location.href = returnUrl, 1800);\n"
    ∷ "      }\n" ∷ "\n"
    ∷ "      // Poll until the SMS-driven settlement flips this charge to paid.\n"
    ∷ "      async function poll() {\n" ∷ "        try {\n"
    ∷ "          const r = await fetch('/v1/checkout/' + payRef);\n" ∷ "          if (r.ok) {\n"
    ∷ "            const d = await r.json();\n"
    ∷ "            if (d.status === 'paid') { finish(); return; }\n" ∷ "          }\n"
    ∷ "        } catch (e) {}\n" ∷ "        setTimeout(poll, 3000);\n" ∷ "      }\n"
    ∷ "      poll();\n" ∷ "    </script>" ∷ []
