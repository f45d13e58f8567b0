-- ===== src/Seq/Extend.antt =====
-- The extended counter is the position nearest to the last one that has the wire value.
use ha_addon_petlibro_local.Prelude.{
  ℕ, ◌+◌, ◌≤◌, ◌<◌, ◌≡◌, ◌↔◌, none, some, to_u16, sub16, add64, max, arith, u16_mod, u64_mod,
}
use ha_addon_petlibro_local.Seq.{WrapSeq, extend, advance_to}

-- A position within half the wire range of the counter is recovered from its low 16 bits.
pub extend-to_u16 :
    (w : WrapSeq) (p : ℕ)
    → w.ext + 32768 < u64_mod
    → w.ext ≤ p + 32768
    → p < w.ext + 32768
    → extend w (to_u16 p) ≡ some p
unfolding extend sub16 add64
extend-to_u16 w p h lo hi = ground arith

-- Whatever `extend` answers has the wire value and lies within half the wire range.
pub extend_sound :
    (w : WrapSeq) (wire : ℕ) {p : ℕ}
    → wire < u16_mod
    → w.ext + 32768 < u64_mod
    → extend w wire ≡ some p
    → (to_u16 p ≡ wire) × (w.ext ≤ p + 32768) × (p < w.ext + 32768)
unfolding extend sub16 add64
extend_sound w wire hw h e = ground arith

-- `extend` refuses a wire value exactly when it is not ahead by less than half the range and would
-- lie before position 0.
pub extend-none :
    (w : WrapSeq) (wire : ℕ)
    → wire < u16_mod
    → (extend w wire ≡ none)
      ↔ ((32768 ≤ sub16 wire (to_u16 w.ext)) × (w.ext < sub16 (to_u16 w.ext) wire))
unfolding extend
extend-none w wire hw = (λ e. ground arith, λ h. ground arith)

-- `advanceTo` never moves the counter back, and moves it to a position that is ahead.
pub advance_to-max :
    (w : WrapSeq) (p : ℕ)
    → w.ext + 32768 < u64_mod
    → w.ext ≤ p + 32768
    → p < w.ext + 32768
    → (advance_to w (to_u16 p)).ext ≡ max w.ext p
unfolding advance_to
advance_to-max w p h lo hi = ground (arith, extend-to_u16 w p)
