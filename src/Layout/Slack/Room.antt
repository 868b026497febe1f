-- ===== src/Layout/Slack/Room.antt =====
-- formatting/slackmrkdwnprovider.go: the places of a block, and the room that is left in it.

use postee.Prelude.{
  ℕ, zero, suc, ◌+◌, ◌-◌, ◌*◌, ◌%◌, ◌≤◌, ◌<◌, String, Bool, none, some, List, [], ◌∷◌, Outcome,
  done, failed, Result, ◌≡◌, ◌≢◌, ◌⊎◌, inl, inr, refl, arith, length, eqb, ltb, Bool-cases,
  Result-cases,
}
use postee.Data.{SlackTextBlock, SlackBlock}
use postee.Layout.Total.{IsDone}
use postee.Layout.Slack.{
  mrkdwn, blank, section, replicate, put_at, then_, row_cells, Building, write_block, new_size,
  begin_block, put_pair,
}

pub length-replicate : (n : ℕ) (b : SlackTextBlock) → length (replicate n b) ≡ n
length-replicate zero b = refl
length-replicate (suc n) b = omega (arith, length-replicate n b)

-- A block with a place set.
pub put_at-IsDone :
    (i : ℕ) (b : SlackTextBlock) (xs : List SlackTextBlock)
    → i < length xs
    → (ys : List SlackTextBlock) × (put_at i b xs ≡ done ys) × (length ys ≡ length xs)
put_at-IsDone i b [] h = absurd (omega (arith, h))
put_at-IsDone zero b (x ∷ xs) h = (b ∷ xs, refl, refl)
put_at-IsDone (suc i) b (x ∷ xs) h =
    let (ys, e, l) = put_at-IsDone i b xs (omega (arith, h)) in
    (x ∷ ys, rw e refl, omega (arith, l))

pub row_cells-IsDone :
    (cell : String) (cells : List String) (bold : Bool) (row : List String)
    → IsDone (row_cells (cell ∷ cells) bold row)
unfolding row_cells
row_cells-IsDone cell cells bold [] = (_, refl)
row_cells-IsDone cell cells bold (first ∷ []) = (_, refl)
row_cells-IsDone cell cells bold (first ∷ second ∷ rest) = (_, refl)

-- A call ends, with a value or with the error of encoding/json.
pub data Ends {A : Type 0} (P : A → Type 0) : Outcome A → Type 0 where
  ends : (a : A) → P a → Ends P (done a)
  fails : (e : String) → Ends P (failed e)

pub then-Ends :
    {A B : Type 0} (P : A → Type 0) (Q : B → Type 0) (o : Outcome A) (k : A → Outcome B)
    → Ends P o
    → ((a : A) → P a → Ends Q (k a))
    → Ends Q (then_ o k)
then-Ends P Q o k (ends a p) h = h a p
then-Ends P Q o k (fails e) h = fails e

-- A block of this length has room for the rows from this line on, `left` in all, or for five.
abbrev pub Fits : (left line size : ℕ) → Type 0
Fits left line size = (2 * (line % 5) + 2 * left ≤ size) ⊎ (10 ≤ size)

Fits-put_row : (left line size : ℕ) → Fits (suc left) line size → line % 5 * 2 + 1 < size
Fits-put_row left line size (inl h) = omega (arith, h)
Fits-put_row left line size (inr h) = omega (arith, h)

Fits-suc :
    (left line size : ℕ)
    → Fits (suc left) line size
    → (suc line % 5 ≡ 0) ⊎ Fits left (suc line) size
Fits-suc left line size (inr h) = inr (inr h)
Fits-suc left line size (inl h) = elim (Bool-cases (eqb (suc line % 5) 0)) [
  | inl z ↦ inl (ground (arith, z))
  | inr z ↦
      let n : suc line % 5 ≢ 0 = λ e. absurd (ground (arith, z, e)) in
      inr (inl (omega (arith, h, n)))
]

module _ (marshal : SlackBlock → Result String) where
  pub write_block-Ends :
      (builder : String) (fields : List SlackTextBlock)
      → Ends (λ text. Unit) (write_block marshal builder fields)
  write_block-Ends builder fields = elim (Result-cases (marshal (section fields))) [
    | inl (block, e) ↦ rw (e, write_block) (ends _ tt)
    | inr (x, e) ↦ rw (e, write_block) (fails x)
  ]

  -- The block has room for the row at this line, of which `left` are left.
  abbrev pub HasRoom : (left line : ℕ) → Building marshal → Type 0
  HasRoom left line (builder, none) = line % 5 ≡ 0
  HasRoom left line (builder, some fields) = (line % 5 ≡ 0) ⊎ Fits left line (length fields)

  abbrev pub Open : (left line : ℕ) → Building marshal → Type 0
  Open left line b =
      (builder : String) × (fields : List SlackTextBlock) × (b ≡ (builder, some fields))
      × Fits left line (length fields)

  Fits-new_size :
      (total line left : ℕ)
      → line % 5 ≡ 0
      → total - line ≡ left
      → Fits left line (length (replicate (new_size total line) blank))
  Fits-new_size total line left h e =
      let l = length-replicate (new_size total line) blank in
      elim (Bool-cases (ltb (total - line) 5)) [
        | inl small ↦ rw l (rw small (inl (omega (arith, e, h))))
        | inr large ↦ rw l (rw large (inr (omega arith)))
      ]

  pub begin_block-Ends :
      (total line left : ℕ) (b : Building marshal)
      → total - line ≡ left
      → HasRoom left line b
      → Ends (Open left line) (begin_block marshal total line b)
  begin_block-Ends total line left (builder, none) e h =
      rw h (ends _ (builder, _, refl, Fits-new_size total line left h e))
  begin_block-Ends total line left (builder, some fields) e h =
      elim (Bool-cases (eqb (line % 5) 0)) [
        | inl z ↦
            let zero_line : line % 5 ≡ 0 = ground (arith, z) in
            rw z (
              then-Ends (λ text. Unit) (Open left line) _ _ (write_block-Ends builder fields)
                (λ text u. ends _ (text, _, refl, Fits-new_size total line left zero_line e)))
        | inr z ↦
            let room : Fits left line (length fields) = elim h [
              | inl zero_line ↦ absurd (ground (arith, z, zero_line))
              | inr f ↦ f
            ] in
            rw z (ends _ (builder, fields, refl, room))
      ]

  pub put_pair-Ends :
      (left line : ℕ) (cells : String × String) (b : Building marshal)
      → Open (suc left) line b
      → Ends (HasRoom left (suc line)) (put_pair marshal line cells b)
  put_pair-Ends left line (cell1, cell2) b (builder, fields, same, room) =
      let last : line % 5 * 2 + 1 < length fields = Fits-put_row left line (length fields) room in
      let first : line % 5 * 2 < length fields = omega (arith, last) in
      let (ys, e, l) = put_at-IsDone (line % 5 * 2) (mrkdwn cell1) fields first in
      let second : line % 5 * 2 + 1 < length ys = omega (arith, last, l) in
      let (zs, f, m) = put_at-IsDone (line % 5 * 2 + 1) (mrkdwn cell2) ys second in
      rw (same, e, f) (ends _ (rw (m, l) (Fits-suc left line (length fields) room)))
