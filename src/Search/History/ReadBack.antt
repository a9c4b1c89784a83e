-- ===== src/Search/History/ReadBack.antt =====
-- What a read of a table finds after an update.
use attic_shogi.Prelude.{
  ℕ, ◌+◌, ◌*◌, ◌%◌, ◌^◌, ◌<◌, ◌≡◌, ◌⊎◌, inl, inr, ◌∙◌, zero, suc, ap, true, length, arith,
}
use attic_shogi.Prelude.Int.{ℤ}
use attic_shogi.State.Piece.{Color, Piece, can_promote}
use attic_shogi.State.Square.{Square, IsSquare}
use attic_shogi.Search.History.{
  Table, get, apply_gravity, capture_index, captured_code, capture_history_d, SharedHistories,
  CorrChannel, corr_index, pawn_index, correction_update, pawn_update, correction_history_d,
  pawn_history_d, cell_index, piece_to_index,
}
use attic_shogi.Search.History.Indices.{capture_index-bounds, piece_code-lt}
use attic_shogi.Search.History.Shared.{Sized, corr_index-bounds, pawn_index-bounds}
use attic_shogi.Search.History.Tables.{
  capture_get, capture_update, correction_get, pawn_get, get_at, clone_plane, slice, piece_to_get,
}
use attic_shogi.Search.History.Update.{Within, update-Within}

map-right {ℓ κ ι} : {A : Type ℓ} {B : Type κ} {C : Type ι} → (B → C) → A ⊎ B → A ⊎ C
map-right f (inl a) = inl a
map-right f (inr b) = inr (f b)

-- A piece that is promoted can promote.
abbrev pub IsPiece : Piece → Type 0
IsPiece p = p.promoted ≡ true → can_promote p.kind ≡ true

-- An update of the capture table sets the entry of its own moved piece, square and type of captured
-- piece to the value of the gravity formula, and a read of any other finds what stood there; every
-- entry stays within the limit. Where the table has its size, its entries are within the limit, the
-- squares are on the board and only a piece that can promote is promoted.
pub capture_get-update :
    (t : Table) (p q : Piece) (s r : Square) (x y : Piece) (bonus : ℤ)
    → length t ≡ 32 * 81 * 16
    → Within capture_history_d t
    → IsSquare s
    → IsSquare r
    → IsPiece x
    → IsPiece y
    → Within capture_history_d (capture_update t p s x bonus)
      × (capture_get (capture_update t p s x bonus) p s x
          ≡ apply_gravity (capture_get t p s x) bonus capture_history_d)
      × ((capture_get (capture_update t p s x bonus) q r y ≡ capture_get t q r y)
          ⊎ (p ≡ q) × (s ≡ r) × (captured_code x ≡ captured_code y))
unfolding capture_get capture_update
capture_get-update t p q s r x y bonus size within hs hr hx hy =
    let (bound, free, same) = capture_index-bounds p q s r hs hr x y hx hy in
    let (kept, same_length, own, others) =
      update-Within capture_history_d t (capture_index p s x) (capture_index q r y) bonus
        (omega arith) (omega arith) within (omega arith) in
    (kept, own, map-right same others)

-- An update of the shared correction table sets the entry of its key, colour and channel to the
-- value of the gravity formula; a read of another colour, channel or slot finds what stood there,
-- where keys have one slot that agree in their low 16 + k bits. The tables keep their sizes and the
-- entries their limit. For the tables of 2 ^ k threads, with the entries within the limit, and an
-- update that no other thread interrupts.
pub correction_get-update :
    (k : ℕ) (h : SharedHistories) (key key' : ℕ) (c c' : Color) (ch ch' : CorrChannel) (bonus : ℤ)
    → Sized k h
    → Within correction_history_d h.correction
    → let after = correction_update h key c ch bonus in
      Sized k after
      × Within correction_history_d after.correction
      × (correction_get after key c ch
          ≡ apply_gravity (correction_get h key c ch) bonus correction_history_d)
      × ((correction_get after key' c' ch' ≡ correction_get h key' c' ch')
          ⊎ (key % 2 ^ (k + 16) ≡ key' % 2 ^ (k + 16)) × (c ≡ c') × (ch ≡ ch'))
unfolding correction_get correction_update corr_index
correction_get-update k h key key' c c' ch ch' bonus sized within =
    let (bound, same) = corr_index-bounds k h sized key key' c c' ch ch' in
    let (kept, same_length, own, others) =
      update-Within correction_history_d h.correction (corr_index h key c ch)
        (corr_index h key' c' ch') bonus (omega arith) (omega arith) within bound in
    (
      record {
        threads = sized.threads;
        corr_mask_eq = sized.corr_mask_eq;
        corr_length = same_length ∙ sized.corr_length;
        pawn_mask_eq = sized.pawn_mask_eq;
        pawn_length = sized.pawn_length;
      },
      kept,
      own,
      map-right same others,
    )

-- An update of the shared pawn table sets the entry of its key, piece and square to the value of the
-- gravity formula; a read of another piece, square or plane finds what stood there, where keys have
-- one plane that agree in their low 13 + k bits. The tables keep their sizes and the entries their
-- limit. For squares on the board, the tables of 2 ^ k threads with the entries within the limit,
-- and an update that no other thread interrupts.
pub pawn_get-update :
    (k : ℕ) (h : SharedHistories) (key key' : ℕ) (p q : Piece) (s r : Square) (bonus : ℤ)
    → Sized k h
    → Within pawn_history_d h.pawn
    → IsSquare s
    → IsSquare r
    → let after = pawn_update h key p s bonus in
      Sized k after
      × Within pawn_history_d after.pawn
      × (pawn_get after key p s ≡ apply_gravity (pawn_get h key p s) bonus pawn_history_d)
      × ((pawn_get after key' q r ≡ pawn_get h key' q r)
          ⊎ (key % 2 ^ (k + 13) ≡ key' % 2 ^ (k + 13)) × (p ≡ q) × (s ≡ r))
unfolding pawn_get pawn_update pawn_index
pawn_get-update k h key key' p q s r bonus sized within hs hr =
    let (bound, same) = pawn_index-bounds k h sized key key' p q s r hs hr in
    let (kept, same_length, own, others) =
      update-Within pawn_history_d h.pawn (pawn_index h key p s) (pawn_index h key' q r) bonus
        (omega arith) (omega arith) within bound in
    (
      record {
        threads = sized.threads;
        corr_mask_eq = sized.corr_mask_eq;
        corr_length = sized.corr_length;
        pawn_mask_eq = sized.pawn_mask_eq;
        pawn_length = same_length ∙ sized.pawn_length;
      },
      kept,
      own,
      map-right same others,
    )

slice-get : (t : Table) (base n i : ℕ) → i < n → get (slice t base n) i ≡ get t (base + i)
unfolding slice get
slice-get t base zero i h = absurd (omega arith)
slice-get t base (suc n) zero h = ap (λ j. get t j) (omega arith)
slice-get t base (suc n) (suc i) h =
    slice-get t (base + 1) n i (omega arith) ∙ ap (λ j. get t j) (omega arith)

-- A plane that `clone_plane` copies out reads as the plane itself, for a square on the board.
pub piece_to_get-clone_plane :
    (t : Table) (plane : ℕ) (p : Piece) (s : Square)
    → IsSquare s
    → piece_to_get (clone_plane t plane) p s ≡ get_at t plane p s
unfolding piece_to_get clone_plane get_at cell_index piece_to_index
piece_to_get-clone_plane t plane p s hs =
    slice-get t (plane * 2592) 2592 (piece_to_index p s) (omega (arith, piece_code-lt p))
    ∙ ap (λ i. get t i) (omega arith)
