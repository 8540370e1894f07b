-- ===== src/Tests/Texts.antt =====
-- A `StringRef` by recursion on the characters.
use Prim.Native.Char.{code, Char, len_utf8}
use Prim.Native.String.{len, count, slice}
use Prim.Native.String.len
use text.Mathlib.TextPositions.{len-append, slice-append_right, slice_all}
use text.Mathlib.TextLemmas.{nil-append, cons-append, length-cons, length-append}
use mathlib.Core.Option
use whack.Prelude.{
  ℕ, ◌+◌, ◌-◌, ◌^◌, String, ◌<>◌, ◌==◌, ◌≡◌, refl, ap, sym, ◌∙◌, ◌≢◌, false, eqb, Bool-cases,
  Option-cases, inl, inr, Option, none, some, if◌then◌else◌, arith, eq_iff, eq_refl, starts_with,
}
use whack.StringRef.{StringRef, has_bar}

abbrev pub take_until_bar : String → String
take_until_bar String.[] = String.[]
take_until_bar (String.◌∷◌ c s) =
    let rest = take_until_bar s in if eqb (code c) 124 then String.[] else String.◌∷◌ c rest

-- What stands before the suffix.
abbrev pub strip : String → String → Option String
strip String.[] t = if String.[] == t then some String.[] else none
strip (String.◌∷◌ c s) t =
    let rest = strip s t in
    if String.◌∷◌ c s == t then some String.[] else Option.map (λ r. String.◌∷◌ c r) rest

abbrev pub or_all : String → Option String → String
or_all s none = s
or_all s (some r) = r

abbrev pub consume_back : String → String → String
consume_back s t = or_all s (strip s t)

-- The position behind the character c, or the one of c if it is a bar.
abbrev behind : Char → Option ℕ → Option ℕ
behind c (some i) = some (len_utf8 c + i)
behind c none = if eqb (code c) 124 then some 0 else none

abbrev pub last_bar : String → Option ℕ
last_bar String.[] = none
last_bar (String.◌∷◌ c s) = behind c (last_bar s)

abbrev pub or_npos : Option ℕ → ℕ
or_npos none = 2 ^ 64 - 1
or_npos (some i) = i

abbrev pub drop_front : ℕ → String → String
drop_front n s = slice s n (len s)

pub take_lem : (s t : String) → has_bar s ≡ false → take_until_bar (s <> ("|" <> t)) ≡ s
take_lem String.[] t h = rw (nil-append, cons-append)
take_lem (String.◌∷◌ c s) t h = rw cons-append (ground (arith, take_lem s t))

longer : (c : Char) (s t : String) → String.◌∷◌ c (s <> t) ≢ t
longer c s t e = omega (arith, ap count e, length-append s t, length-cons c (s <> t))

strip_all : (t : String) → strip t t ≡ some String.[]
strip_all String.[] = refl
strip_all (String.◌∷◌ c t) = rw eq_refl

pub strip-append : (s t : String) → strip (s <> t) t ≡ some s
strip-append String.[] t = rw nil-append (strip_all t)
strip-append (String.◌∷◌ c s) t =
    rw cons-append
      (ground (arith, eq_iff (String.◌∷◌ c (s <> t)) t, longer c s t, strip-append s t))

strip_sound : (s t r : String) → strip s t ≡ some r → s ≡ r <> t
strip_sound String.[] t r h = elim (Bool-cases (String.[] == t)) [
  | inl e ↦
      let empty : String.[] ≡ r = ground (arith, e, h) in
      (eq_iff String.[] t).0 e ∙ sym (rw (sym empty) (nil-append t))
  | inr e ↦ ground (arith, e, h)
]
strip_sound (String.◌∷◌ c s) t r h = elim (Bool-cases (String.◌∷◌ c s == t)) [
  | inl e ↦
      let empty : String.[] ≡ r = ground (arith, e, h) in
      (eq_iff (String.◌∷◌ c s) t).0 e ∙ sym (rw (sym empty) (nil-append t))
  | inr e ↦ elim (Option-cases (strip s t)) [
    | inl absent ↦ ground (arith, e, absent, h)
    | inr (r', found) ↦
        let same : String.◌∷◌ c r' ≡ r = ground (arith, e, found, h) in
        rw (sym same, cons-append, strip_sound s t r' found)
  ]
]

pub consume_back-other : (s t : String) → ((r : String) → s ≢ r <> t) → consume_back s t ≡ s
consume_back-other s t h = elim (Option-cases (strip s t)) [
  | inl e ↦ rw e
  | inr (r, e) ↦ absurd (h r (strip_sound s t r e))
]

pub last_bar-absent : (s : String) → has_bar s ≡ false → last_bar s ≡ none
last_bar-absent String.[] h = refl
last_bar-absent (String.◌∷◌ c s) h = ground (arith, last_bar-absent s)

pub last_bar-append : (s t : String) → has_bar t ≡ false → last_bar (s <> ("|" <> t)) ≡ some (len s)
last_bar-append String.[] t h =
    rw (nil-append, cons-append, nil-append) (ap (behind "|") (last_bar-absent t h))
last_bar-append (String.◌∷◌ c s) t h =
    rw cons-append (ap (behind c) (last_bar-append s t h) ∙ ap some (sym (len.cons c s)))

pub drop_front-append : (s t : String) → drop_front (len s) (s <> t) ≡ t
drop_front-append s t = rw len-append (slice-append_right s t)

abbrev pub string_ref : StringRef
string_ref = record {
  take_until_bar = take_until_bar;
  consume_back = consume_back;
  find_last_bar = λ s. or_npos (last_bar s);
  drop_front = drop_front;
  starts_with = starts_with;
  substr = λ s n. drop_front n s;
  take_until_bar-append = take_lem;
  consume_back-append = λ s t. ap (or_all (s <> t)) (strip-append s t);
  consume_back-other = consume_back-other;
  find_last_bar-append = λ s t h. ap or_npos (last_bar-append s t h);
  find_last_bar-absent = λ s h. ap or_npos (last_bar-absent s h);
  drop_front-append = drop_front-append;
  drop_front-zero = slice_all;
}
