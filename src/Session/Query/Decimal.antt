-- ===== src/Session/Query/Decimal.antt =====
-- Decimal texts and the numbers that `strconv.ParseUint` reads from them.
use ha_addon_petlibro_local.Prelude.{
  ℕ, zero, suc, ◌+◌, ◌-◌, ◌*◌, ◌/◌, ◌%◌, ◌≤◌, ◌<◌, ◌≡◌, refl, sym, ap, ◌∙◌, inl, inr, false,
  Bool-cases, ◌&&◌, Option, none, some, List, [], ◌∷◌, ◌++◌, if◌then◌else◌, ltb, leb, ◌==◌, codes,
  length, length-append, arith,
}
use ha_addon_petlibro_local.Assembler.Output.{equal_bytes, equal_bytes-eq}
use ha_addon_petlibro_local.Session.Query.{
  parse_hd_probe_wait, parse_stream_ctrl_quality, parse_digits, at_most, parse_uint,
}

-- The digits of a number, the highest first, on fuel.
abbrev pub decimal_on : ℕ → ℕ → List ℕ
decimal_on zero n = (48 + n % 10) ∷ []
decimal_on (suc fuel) n =
    let higher = decimal_on fuel (n / 10) in
    if ltb n 10 then (48 + n) ∷ [] else higher ++ ((48 + n % 10) ∷ [])

abbrev pub decimal : ℕ → List ℕ
decimal n = decimal_on n n

abbrev after : List ℕ → Option ℕ → Option ℕ
after ds none = none
after ds (some acc) = parse_digits ds acc

parse_digits-append :
    (cs ds : List ℕ) (acc : ℕ) → parse_digits (cs ++ ds) acc ≡ after ds (parse_digits cs acc)
unfolding parse_digits
parse_digits-append [] ds acc = refl
parse_digits-append (c ∷ cs) ds acc = elim (Bool-cases (leb 48 c && leb c 57)) [
  | inl digit ↦ rw digit (parse_digits-append cs ds (acc * 10 + (c - 48)))
  | inr other ↦ rw other refl
]

parse_digit : (d acc : ℕ) → d < 10 → parse_digits ((48 + d) ∷ []) acc ≡ some (acc * 10 + d)
unfolding parse_digits
parse_digit d acc h = ground arith

parse_digits-decimal : (fuel n : ℕ) → n ≤ fuel → parse_digits (decimal_on fuel n) 0 ≡ some n
parse_digits-decimal zero n h = parse_digit (n % 10) 0 (omega arith) ∙ ap some (omega arith)
parse_digits-decimal (suc fuel) n h = elim (Bool-cases (ltb n 10)) [
  | inl small ↦ rw small (parse_digit n 0 (ground arith) ∙ ap some (omega arith))
  | inr big ↦
      let ih = parse_digits-decimal fuel (n / 10) (ground arith) in
      rw (big, parse_digits-append, ih)
        (parse_digit (n % 10) (n / 10) (omega arith) ∙ ap some (omega arith))
]

some_digits : (fuel n : ℕ) → 0 < length (decimal_on fuel n)
some_digits zero n = omega arith
some_digits (suc fuel) n =
    ground (arith, length-append (decimal_on fuel (n / 10)) ((48 + n % 10) ∷ []))

number-decimal :
    (max n : ℕ) → at_most max (parse_digits (decimal n) 0) ≡ (if leb n max then some n else none)
unfolding at_most
number-decimal max n = rw (parse_digits-decimal n n (omega arith)) (ground arith)

value : Option ℕ → ℕ
value none = 0
value (some n) = n

-- Only 0 is written as the code's special case.
zero_text : (n : ℕ) → decimal n ≡ 48 ∷ [] → n ≡ 0
unfolding parse_digits value
zero_text n h =
    ap value (sym (parse_digits-decimal n n (omega arith)) ∙ ap (λ t. parse_digits t 0) h)

-- The decimal text of a number is read back where the number is in range, up to 60000 milliseconds
-- for the wait of the probe and up to 255 for the quality, and every other number is an error.
pub parse-decimal :
    (n : ℕ) (quality : List ℕ)
    → (parse_hd_probe_wait (decimal n) ≡ (if leb n 60000 then some n else none))
      × (parse_stream_ctrl_quality (decimal n) quality ≡ (if leb n 255 then some n else none))
unfolding parse_hd_probe_wait parse_stream_ctrl_quality parse_uint at_most
parse-decimal n quality =
    let nonempty : length (decimal n) == 0 ≡ false = ground (arith, some_digits n n) in
    (
      elim (Bool-cases (equal_bytes (decimal n) (codes "0"))) [
        | inl zero_only ↦
            let none_left = zero_text n (equal_bytes-eq (decimal n) (codes "0") zero_only) in
            rw (nonempty, zero_only) (ground arith)
        | inr other ↦ rw (nonempty, other, parse_digits-decimal n n (omega arith)) (ground arith)
      ],
      rw nonempty (number-decimal 255 n),
    )
