-- ===== src/Mdns/Queries.antt =====
-- mdns.rs: `digit_char`, `adapt`, `punycode`, `idn_ascii` and `build_query`.
pub mod Ends
pub mod Digits
pub mod ReadBack
use uscan.Prelude.{
  ℕ, zero, suc, ◌+◌, ◌-◌, ◌*◌, ◌/◌, ◌%◌, min, max, Bool, true, false, not, ◌&&◌, List, [], ◌∷◌,
  ◌++◌, map,
}
use uscan.Prelude.{
  ltb, leb, ◌==◌, if◌then◌else◌, length, filter, all, replicate, Bytes, Text, codes, write,
  u16_to_be,
}
use uscan.Prelude.Results.{Result, ok, err}
use uscan.Addr.Display.{join}
use uscan.Mdns.{DnsError}
use uscan.Mdns.Names.{split_dots, encode_name}

-- `d + 22 + 75 * u32::from(d < 26)`, as a byte and then as a character
unfoldable pub digit_char : ℕ → ℕ
digit_char d = (d + 22 + (if ltb d 26 then 75 else 0)) % 256

-- The loop of `adapt`: it divides `d` by 35 and counts `k` up by 36 while `d` is over 455.
unfoldable pub adapt_loop : ℕ → ℕ → ℕ → ℕ × ℕ
adapt_loop zero k d = (k, d)
adapt_loop (suc fuel) k d =
    let next = adapt_loop fuel (k + 36) (d / 35) in if ltb 455 d then next else (k, d)

-- `u32` wraps in no step: `delta` is at most `2^32 - 1` and a half of it is taken.
unfoldable pub adapt : ℕ → ℕ → Bool → ℕ
unfolding adapt_loop
adapt delta numpoints firsttime =
    let halved = if firsttime then delta / 700 else delta / 2 in
    let grown = halved + halved / max numpoints 1 in
    let (k, d) = adapt_loop grown 0 grown in k + 36 * d / (d + 38)

-- `saturating_add` and `saturating_mul` of `u32`
abbrev pub saturate : ℕ → ℕ
saturate n = min n 0xffff_ffff

-- `t`, the least digit that ends a number at the place `k`
abbrev pub threshold : ℕ → ℕ → ℕ
threshold k bias = if leb k bias then 1 else if leb (bias + 26) k then 26 else k - bias

-- The inner loop: the digits of `q` from the place `k` on.
unfoldable pub digits : ℕ → ℕ → ℕ → ℕ → Text
unfolding digit_char
digits zero q k bias = digit_char q ∷ []
digits (suc fuel) q k bias =
    let t = threshold k bias in
    let rest = digits fuel ((q - t) / (36 - t)) (k + 36) bias in
    if ltb q t then digit_char q ∷ [] else digit_char (t + (q - t) % (36 - t)) ∷ rest

pub record Encoder : Type 0 where
  pub delta : ℕ
  pub bias : ℕ
  pub h : ℕ
  pub output : Text

-- One character of the input in the pass for the code point `n`; `b` is the number of basic ones.
unfoldable pub visit : ℕ → ℕ → Encoder → ℕ → Encoder
unfolding digits adapt
visit b n s cp =
    let counted = if ltb cp n then saturate (s.delta + 1) else s.delta in
    if cp == n
    then record {
      delta = 0;
      bias = adapt counted (s.h + 1) (s.h == b);
      h = s.h + 1;
      output = s.output ++ digits counted counted 36 (s.bias);
    }
    else record { delta = counted; bias = s.bias; h = s.h; output = s.output }

unfoldable pub pass : ℕ → ℕ → Encoder → Text → Encoder
unfolding visit
pass b n s [] = s
pass b n s (cp ∷ cps) = pass b n (visit b n s cp) cps

-- `filter(|cp| cp >= n).min().unwrap_or(0x110000)`
unfoldable pub least_from : ℕ → Text → ℕ
least_from n [] = 0x11_0000
least_from n (cp ∷ cps) = let m = least_from n cps in if leb n cp then min cp m else m

-- The outer loop, `while h < len`; each round puts a code point of the input at least.
unfoldable pub rounds : ℕ → ℕ → Text → ℕ → Encoder → Encoder
unfolding least_from pass
rounds zero b input n s = s
rounds (suc fuel) b input n s =
    let m = least_from n input in
    let delta = saturate (s.delta + saturate ((m - n) * (s.h + 1))) in
    let t = pass b m (record { delta = delta; bias = s.bias; h = s.h; output = s.output }) input in
    let rest =
      rounds fuel b input (saturate (m + 1))
        (record { delta = saturate (t.delta + 1); bias = t.bias; h = t.h; output = t.output }) in
    if ltb (s.h) (length input) then rest else s

abbrev pub is_basic : ℕ → Bool
is_basic cp = ltb cp 0x80

-- The state before the outer loop.
unfoldable pub basic_part : Text → Encoder
basic_part input =
    let basic = filter is_basic input in
    record {
      delta = 0;
      bias = 72;
      h = length basic;
      output = if ltb 0 (length basic) then basic ++ (45 ∷ []) else basic;
    }

unfoldable pub punycode : Text → Text
unfolding basic_part rounds
punycode input =
    (rounds (length input) (length (filter is_basic input)) input 0x80 (basic_part input)).output

-- `to_ascii_lowercase` of a character
abbrev pub to_lower : ℕ → ℕ
to_lower c = if leb 65 c && leb c 90 then c + 32 else c

abbrev pub ascii_label : Text → Text
ascii_label label = if all is_basic label then label else codes "xn--" ++ punycode label

unfoldable pub idn_ascii : Text → Text
unfolding punycode split_dots join
idn_ascii domain = join (46 ∷ []) (map ascii_label (split_dots (map to_lower domain)))

unfoldable pub build_query : Text → ℕ → Result DnsError Bytes
unfolding idn_ascii encode_name
build_query domain qtype = ok (
    write (replicate 12 0) 4 (u16_to_be 1)
    ++ (encode_name (idn_ascii domain) ++ (u16_to_be qtype ++ u16_to_be 1)))
