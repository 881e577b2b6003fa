-- ===== src/Policy/Validation.antt =====
-- control-plane/src/domains/policy/policyValidation.ts: the body of a request, read as a policy. A
-- body that is refused, with the code BAD_REQUEST, is `none`.
pub mod Accepts
use verilink.Base.{
  ℕ, ◌*◌, ◌/◌, ◌%◌, ◌^◌, ◌==◌, Bool, true, false, not, ◌||◌, Option, none, some, List, [], ◌∷◌,
  String, if◌then◌else◌, ltb, all, length, ◌>>=◌, ◌>>◌, throw_if,
}
use verilink.Base.Int.{ℤ, pos, negsuc}
use verilink.Base.Texts.{str_eq, includes}
pub use verilink.Base.Value.{
  Number, finite, infinity, negative_infinity, nan, Value, null, boolean, number, string, array,
  object, Values, nil, cons, Members, end, member, field, or_default,
}

pub record PolicyUpdate : Type 0 where
  pub threshold : ℕ
  pub below_threshold_action : String
  pub unsigned_action : String
  pub allow_fingerprints : List String
  pub deny_fingerprints : List String
  pub fail_open_expired : Bool
  pub no_drop_decisions : Bool
  pub max_snapshot_age_seconds : ℕ
  pub allow_sample_rate : Number

abbrev pub actions_below : List String
actions_below = "allow" ∷ "deny" ∷ []

abbrev pub actions_unsigned : List String
actions_unsigned = "passthrough" ∷ "deny" ∷ []

-- `Number.isInteger(n)` and not below 0.
unfoldable pub natural : Value → Option ℕ
natural (number (finite (pos m) e)) = if m % 2 ^ e == 0 then some (m / 2 ^ e) else none
natural _ = none

unfoldable pub threshold_of : Value → Option ℕ
unfolding natural
threshold_of v = do n ← natural v; throw_if (ltb 100 n); some n

unfoldable pub action_of : List String → Value → Option String
action_of actions (string s) = if includes actions s then some s else none
action_of actions _ = none

abbrev pub boolean_of : Value → Option Bool
boolean_of (boolean b) = some b
boolean_of _ = none

-- Between 0 and 1.
unfoldable pub rate_of : Value → Option Number
rate_of (number (finite (pos m) e)) = if ltb (2 ^ e) m then none else some (finite (pos m) e)
rate_of _ = none

abbrev pub is_text_entry : String → Bool
is_text_entry s = not (str_eq s "")

abbrev pub strings_of : Values → Option (List String)
strings_of nil = some []
strings_of (cons (string s) vs) =
    let rest = strings_of vs in
    if is_text_entry s then elim rest [ some l ↦ some (s ∷ l) | none ↦ none ] else none
strings_of (cons _ vs) = none

unfoldable pub as_string_array : Value → Option (List String)
as_string_array (array vs) = do out ← strings_of vs; throw_if (ltb 256 (length out)); some out
as_string_array _ = none

-- The double that `0.01` denotes.
abbrev pub default_rate : Number
default_rate = finite (pos 5764607523034235) 59

unfoldable pub parse_members : Members → Option PolicyUpdate
unfolding threshold_of action_of natural rate_of as_string_array
parse_members b = do
  threshold ← threshold_of (or_default (number (finite (pos 50) 0)) (field "threshold" b))
  below ← action_of actions_below (or_default (string "deny") (field "below_threshold_action" b))
  unsigned ←
      action_of actions_unsigned (or_default (string "passthrough") (field "unsigned_action" b))
  fail_open ← boolean_of (or_default (boolean false) (field "fail_open_expired" b))
  no_drop ← boolean_of (or_default (boolean false) (field "no_drop_decisions" b))
  max_age ← natural (or_default (number (finite (pos 300) 0)) (field "max_snapshot_age_seconds" b))
  rate ← rate_of (or_default (number default_rate) (field "allow_sample_rate" b))
  allow ← as_string_array (or_default (array nil) (field "allow_fingerprints" b))
  deny ← as_string_array (or_default (array nil) (field "deny_fingerprints" b))
  some (record {
    threshold = threshold;
    below_threshold_action = below;
    unsigned_action = unsigned;
    allow_fingerprints = allow;
    deny_fingerprints = deny;
    fail_open_expired = fail_open;
    no_drop_decisions = no_drop;
    max_snapshot_age_seconds = max_age;
    allow_sample_rate = rate;
  })

-- `typeof body === 'object'` holds of an array too, which has none of the fields.
unfoldable pub parse_policy_update : Value → Option PolicyUpdate
unfolding parse_members
parse_policy_update (object b) = parse_members b
parse_policy_update (array vs) = parse_members end
parse_policy_update _ = none
