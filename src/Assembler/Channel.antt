-- ===== src/Assembler/Channel.antt =====
-- `pendingFrag`, `channelAsm`, its `reset` and `missingFragmentRanges` of
-- pkg/petlibro/assembler.go.
use ha_addon_petlibro_local.Prelude.{
  ℕ, zero, suc, ◌+◌, ◌-◌, Bool, false, List, [], ◌∷◌, ◌++◌, if◌then◌else◌, ◌==◌, contains, length,
  add16, to_u16,
}

pub record PendingFrag : Type 0 where
  pub channel : ℕ
  pub is_audio : Bool
  pub sub_ext : ℕ
  pub frame_num : ℕ
  pub frag_idx : ℕ
  pub total_frags : ℕ
  pub payload : List ℕ

-- `received_data` lists the keys of Go's map; the nil map is the empty one.
pub record ChannelAsm : Type 0 where
  pub buf : List ℕ
  pub cur_frame_num : ℕ
  pub frame_pending : Bool
  pub cur_au_total : ℕ
  pub cur_au_data_count : ℕ
  pub cur_au_gapped : Bool
  pub expect_frag_idx : ℕ
  pub received_data : List ℕ

unfoldable pub reset : ChannelAsm → ChannelAsm
reset a = record a {
  buf = [];
  cur_au_total = 0;
  cur_au_data_count = 0;
  cur_au_gapped = false;
  expect_frag_idx = 0;
  received_data = [];
  frame_pending = false;
}

-- The loop from index `i` on, with `n` indices left.
unfoldable pub holes : ℕ → ℕ → List ℕ → List ℕ
holes zero i received = []
holes (suc n) i received =
    let rest = holes n (i + 1) received in if contains received i then rest else i ∷ rest

-- `(missing, received)`.
unfoldable pub missing_fragment_ranges : ChannelAsm → Bool → List ℕ × ℕ
missing_fragment_ranges a has_trailer =
    let received = to_u16 (length a.received_data) in
    let lost = holes (a.cur_au_total - 1) 0 a.received_data in
    if a.cur_au_total == 0
    then ([], received)
    else if has_trailer
    then (lost, add16 received 1)
    else (lost ++ ((a.cur_au_total - 1) ∷ []), received)
