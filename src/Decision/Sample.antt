-- ===== src/Decision/Sample.antt =====
-- control-plane/src/domains/decision/decisionSample.ts, on decisions as the request brings them: any
-- values, of which TypeScript's types promise nothing. The parser of dates, the JSON printer and the
-- hash are the `Services`. Times are whole milliseconds after the epoch.
use verilink.Base.{
  ℕ, ◌*◌, ◌%◌, ◌-◌, ◌+◌, Bool, true, false, ◌&&◌, Option, none, some, List, ◌∷◌, ◌++◌, String,
  if◌then◌else◌, ltb, leb, take, drop, map, is_some,
}
use verilink.Base.Int.{pos}
use verilink.Base.Texts.{str_eq}
use verilink.Base.Value.{Value, boolean, number, string, finite, or_default, property, printed_text}

-- The fields are what the wire brings: any value, or `none` where there is none.
pub record DecisionWire : Type 0 where
  pub wal_seq : Option Value
  pub fingerprint : Option Value
  pub principal_id : Option Value
  pub score : Option Value
  pub blacklisted : Option Value
  pub score_reason : Option Value
  pub action : Option Value
  pub decided_at : Option Value

-- The value that `canonicalizeDecisionsJSON` prints, with its defaults filled in.
pub record Canonical : Type 0 where
  pub wal_seq : Option Value
  pub fingerprint : Option Value
  pub principal_id : Value
  pub score : Value
  pub blacklisted : Value
  pub score_reason : Value
  pub action : Option Value
  pub decided_at : Option Value

-- A value under the type of its cast.
abbrev pub wire_of : Value → DecisionWire
wire_of v = record {
  wal_seq = property "wal_seq" v;
  fingerprint = property "fingerprint" v;
  principal_id = property "principal_id" v;
  score = property "score" v;
  blacklisted = property "blacklisted" v;
  score_reason = property "score_reason" v;
  action = property "action" v;
  decided_at = property "decided_at" v;
}

-- `RFC3339_RE.test`, `Date.parse` (none for NaN), the hash of the printed JSON, and the text of a
-- value that is no text.
pub record Services : Type 0 where
  pub is_rfc3339 : String → Bool
  pub date_parse : String → Option ℕ
  pub hash_of : List Canonical → List ℕ
  pub print : Value → String

abbrev pub text_or {ℓ} : {A : Type ℓ} → A → Option A → A
text_or d none = d
text_or d (some s) = s

unfoldable pub canonical : DecisionWire → Canonical
canonical d = record {
  wal_seq = d.wal_seq;
  fingerprint = d.fingerprint;
  principal_id = or_default (string "") d.principal_id;
  score = or_default (number (finite (pos 0) 0)) d.score;
  blacklisted = or_default (boolean false) d.blacklisted;
  score_reason = or_default (string "") d.score_reason;
  action = d.action;
  decided_at = d.decided_at;
}

-- `sha256Hex(canonicalizeDecisionsJSON(decisions))`
unfoldable pub computed_hash : Services → List DecisionWire → List ℕ
unfolding canonical
computed_hash sv ds = sv.hash_of (map canonical ds)

-- `toLowerCase` on hex digits and dashes.
abbrev pub lower : ℕ → ℕ
lower c = if leb 65 c && leb c 90 then c + 32 else c

abbrev pub to_lower_case : List ℕ → List ℕ
to_lower_case s = map lower s

abbrev pub slice : ℕ → ℕ → List ℕ → List ℕ
slice a b s = take (b - a) (drop a s)

unfoldable pub batch_id_from_payload_hash : List ℕ → List ℕ
batch_id_from_payload_hash hash =
    let h = to_lower_case hash in
    slice 0 8 h
    ++ (45 ∷ slice 8 12 h)
    ++ (45 ∷ slice 12 16 h)
    ++ (45 ∷ slice 16 20 h)
    ++ (45 ∷ slice 20 32 h)

-- The rate is in thousandths, the unit of the column `NUMERIC(4,3)`, so `bucket / 10000 < rate`
-- is exact.
unfoldable pub should_sample : Services → String → String → ℕ → Bool
should_sample sv action decided_at rate =
    if str_eq action "deny"
    then true
    else if leb rate 0
    then false
    else if leb 1000 rate
    then true
    else elim (sv.date_parse decided_at) [ none ↦ false | some ms ↦ ltb (ms % 10000) (rate * 10) ]

unfoldable pub assert_rfc3339 : Services → Option Value → Bool
assert_rfc3339 sv v = elim (printed_text v) [
  | none ↦ false
  | some s ↦ sv.is_rfc3339 s && is_some (sv.date_parse s)
]
