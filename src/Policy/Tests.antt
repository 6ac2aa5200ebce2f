-- ===== src/Policy/Tests.antt =====
-- A run of the policy's validation (aegorx/policy.py).
use aegor_x.Prelude.{◌≡◌, refl, String_discrete, false, none, some, [], ◌∷◌}
use aegor_x.Json.{
  Json, text, whole, float, array, object, end, field, item, nil, unit, get, fields_of, list_of,
  text_of,
}
use aegor_x.Policy.{Text, Policy, ok, err, short_interval, validate_policy, document_of}
use aegor_x.Policy.Valid.{IsText, IsPolicy}
use aegor_x.Policy.Saved.{validate_policy-document_of}

abbrev plain : Text
plain = record { strip = λ s. s; has_dots = λ _. false }

plain-IsText : IsText plain
plain-IsText = record { strip-strip = λ s. refl; dots = λ s h. refl }

abbrev pushed : Json
pushed = object (
    field "exclusions" (array (item (text "/proc/*") nil)) (
      field "scan_interval_seconds" (whole 3600)
        (field "malicious_probability" (float false 5) end)))

abbrev policy : Policy
policy = record {
  exclusions = "/proc/*" ∷ [];
  scan_interval_seconds = 3600;
  scheduled_paths = [];
  backend = "auto";
  malicious_probability = some 5;
  suspicious_probability = none;
}

passes : validate_policy plain pushed ≡ ok policy
unfolding validate_policy get fields_of list_of text_of unit String_discrete
passes = refl

validate_policy-document_of_example :
    IsPolicy plain policy × (validate_policy plain (document_of policy) ≡ ok policy)
validate_policy-document_of_example =
    validate_policy-document_of plain pushed policy plain-IsText passes

refuses :
    validate_policy plain (object (field "scan_interval_seconds" (whole 59) end))
    ≡ err short_interval
unfolding validate_policy get fields_of String_discrete
refuses = refl
