-- ===== src/Protocols/Vision360.antt =====
-- protocols/vision360.rs: the probe and the parser of the pairs `KEY=value`. `none` is a panic.
pub mod Marks
pub mod Pairs
pub mod Values
use uscan.Prelude.{
  ℕ, zero, suc, Bool, true, false, not, ◌&&◌, ◌||◌, List, [], ◌∷◌, ◌++◌, Option, none, some,
}
use uscan.Prelude.{◌==◌, ◌=t=◌, if◌then◌else◌, length, Bytes, Text, codes}
use uscan.Prelude.Maps.{Assoc, lookup}
use uscan.Addr.{IpAddr}
use uscan.Utf8.{from_utf8_lossy}
use uscan.Strings.{split_once}
use uscan.Strings.Find.{
  before_first, from_first, is_ascii_alphabetic, is_ascii_alphanumeric, last_or, without_last,
}
use uscan.Devices.{Device}
use uscan.Net.{Sending, send_broadcast}
use uscan.Engine.{Listen, listen_global}
use uscan.Protocols.{or_text}

abbrev pub port : ℕ
port = 3600

abbrev pub request : Text
request = codes "DISCOVER\n"

abbrev pub listen : Listen
listen = listen_global port

abbrev pub scan : List Sending
scan = send_broadcast port request ∷ []

abbrev pub starts_key : ℕ → Bool
starts_key c = is_ascii_alphabetic c || c == b'_'

abbrev pub in_key : ℕ → Bool
in_key c = is_ascii_alphanumeric c || c == b'_'

abbrev pub is_space : ℕ → Bool
is_space c = c == 32

-- `skip_non_space`: the value up to a space, and the rest from there.
unfoldable pub word_at : Text → Text × Text
unfolding before_first from_first
word_at s = (before_first is_space s, from_first is_space s)

-- A value in quotation marks, if the second mark is there, or a word.
unfoldable pub value_at : ℕ → Text → Text × Text
unfolding word_at split_once
value_at q s =
    if q == 39 || q == 34
    then elim (split_once q s) as (λ _. Text × Text) [
      | some (inside, after) ↦ (q ∷ (inside ++ q ∷ []), after)
      | none ↦ word_at (q ∷ s)
    ]
    else word_at (q ∷ s)

-- `strip_paired_quotes`
unfoldable pub strip_paired_quotes : Text → Text
unfolding without_last
strip_paired_quotes [] = []
strip_paired_quotes (a ∷ []) = a ∷ []
strip_paired_quotes (a ∷ (b ∷ s)) =
    if (a == 39 || a == 34) && last_or b s == a then without_last (b ∷ s) else a ∷ (b ∷ s)

-- A key keeps its first value.
unfoldable pub push : Text → Text → Assoc Text → Assoc Text
unfolding lookup
push key value out = elim (lookup key out) [ none ↦ out ++ (key, value) ∷ [] | some v ↦ out ]

-- The loop over what is left; each round takes a character at least. The byte behind the `=` is read
-- without asking whether it is there: `none` is the panic.
unfoldable pub pairs_loop : ℕ → Text → Assoc Text → Option (Assoc Text)
unfolding value_at strip_paired_quotes push before_first from_first
pairs_loop zero s out = some out
pairs_loop (suc fuel) [] out = some out
pairs_loop (suc fuel) (c ∷ s) out = elim (starts_key c) [
  | false ↦ pairs_loop fuel s out
  | true ↦ elim (from_first (λ x. not (in_key x)) (c ∷ s)) [
    | [] ↦ some out
    | e ∷ rest ↦ elim (e == b'=') [
      | false ↦ pairs_loop fuel (e ∷ rest) out
      | true ↦ elim rest [
        | [] ↦ none
        | q ∷ t ↦
            let (value, next) = value_at q t in
            pairs_loop fuel next
              (push (before_first (λ x. not (in_key x)) (c ∷ s)) (strip_paired_quotes value) out)
      ]
    ]
  ]
]

unfoldable pub key_value_pairs : Text → Option (Assoc Text)
unfolding pairs_loop
key_value_pairs s = pairs_loop (suc (length s)) s []

-- The text up to the first newline and without the character before it, unless the newline stands
-- first or nowhere.
unfoldable pub trimmed : Text → Text
unfolding split_once without_last
trimmed s = elim (split_once 10 s) [
  | none ↦ s
  | some ([], after) ↦ s
  | some (c ∷ before, after) ↦ without_last (c ∷ before)
]

unfoldable pub parse : IpAddr → Bytes → Option (List Device)
unfolding key_value_pairs trimmed lookup
parse from d =
    let s = from_utf8_lossy d in
    if s =t= request then some [] else elim (key_value_pairs (trimmed s)) [
      | none ↦ none
      | some pairs ↦ some (
          record {
            protocol = codes "360Vision";
            version = 1;
            ip = from;
            mac = [];
            device_type = or_text (lookup (codes "TYPE") pairs) (codes "Unknown");
            serial = or_text (lookup (codes "KEY") pairs) (codes "Unknown");
          }
          ∷ [])
    ]
