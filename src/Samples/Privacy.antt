-- ===== src/Samples/Privacy.antt =====
-- The theorem on the redaction (app/utils/redaction.py) at a concrete context.
use card_fraud_ops_analyst_a.Prelude.{ℕ, String, is_infix, if◌then◌else◌}
use card_fraud_ops_analyst_a.Value.{Fields, num, str, obj, field, end}
use card_fraud_ops_analyst_a.Redaction.{redact_state_for_llm}
use card_fraud_ops_analyst_a.Redaction.Clean.{HasClean, redact-HasClean}
use card_fraud_ops_analyst_a.Samples.{hundredths}

abbrev scrub : String → String
scrub s = if is_infix "@" s then "***EMAIL***" else s

abbrev context : Fields ℕ
context =
    field "transaction"
      (obj (
        field "card_id" (str "tok_abcdef123")
          (field "merchant_id" (str "m-1") (field "amount" (num 5000) end))))
      end

redact-HasClean_example : HasClean hundredths scrub (redact_state_for_llm hundredths scrub context)
redact-HasClean_example = redact-HasClean hundredths scrub context
