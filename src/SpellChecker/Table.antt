-- ===== src/SpellChecker/Table.antt =====
-- The loops of `levenshteinDistance` fill the table with the recurrence.
use monocle.Prelude.{
  ℕ, zero, suc, ◌+◌, ◌≤◌, ◌<◌, min, ◌≡◌, refl, ap, some, List, [], ◌∷◌, inl, inr, false, ◌==◌,
  if◌then◌else◌, ◌&&◌, length, get_elem?, arith, Bool-cases, sym, ◌∙◌,
}
use monocle.Prelude.Maybe.{for_range_inv}
use monocle.Prelude.Text.{Text}
use monocle.SpellChecker.{
  Matrix, make, read, write, take_diagonal, take_least, fill_cell, fill_row, fill_table,
}
use monocle.SpellChecker.Optimal.{same_at, opt, opt_same, opt_other, opt_left, opt_top}

get_lt {ℓ} :
    {A : Type ℓ} (xs : List A) (i : ℕ) → i < length xs → (x : A) × (get_elem? xs i ≡ some x)
get_lt [] i h = elim h [ ]
get_lt (x ∷ xs) zero h = (x, refl)
get_lt (x ∷ xs) (suc i) h = get_lt xs i (omega arith)

module _ (a b : Text) where
  -- The cells that are done before cell `(i, j)` is: the borders, the rows above and the row so far.
  record Filled (i j : ℕ) (dp : Matrix) : Type 0 where
    rows : dp.rows ≡ length a + 1
    cols : dp.cols ≡ length b + 1
    left : (k : ℕ) → k ≤ length a → dp.cell k 0 ≡ k
    top : (k : ℕ) → k ≤ length b → dp.cell 0 k ≡ k
    above : (k l : ℕ) → k < i → l ≤ length b → dp.cell k l ≡ opt a b k l
    row : (l : ℕ) → i ≤ length a → l < j → dp.cell i l ≡ opt a b i l

  abbrev set_cell : Matrix → ℕ → ℕ → ℕ → Matrix
  set_cell m i j v = record m { cell = λ k l. if k == i && l == j then v else m.cell k l }

  read_in : (i j : ℕ) (m : Matrix) → i < m.rows → j < m.cols → read m i j ≡ some (m.cell i j)
  unfolding read
  read_in i j m p q = ground arith

  write_in :
      (i j v : ℕ) (m : Matrix) → i < m.rows → j < m.cols → write m i j v ≡ some (set_cell m i j v)
  unfolding write
  write_in i j v m p q = ground arith

  Filled-set :
      (i j : ℕ) (dp : Matrix) (v : ℕ)
      → v ≡ opt a b (suc i) (suc j)
      → Filled (suc i) (suc j) dp
      → Filled (suc i) (suc (suc j)) (set_cell dp (suc i) (suc j) v)
  Filled-set i j dp v e f = record {
    rows = f.rows;
    cols = f.cols;
    left = λ k h. ground (arith, f.left k h);
    top = λ k h. ground (arith, f.top k h);
    above = λ k l h h'. ground (arith, f.above k l h h');
    row = λ l hi h. ground (arith, f.row l hi);
  }

  take_diagonal_runs :
      (i j : ℕ) (dp : Matrix)
      → i < length a
      → j < length b
      → Filled (suc i) (suc j) dp
      → take_diagonal (suc i) (suc j) dp ≡ some (set_cell dp (suc i) (suc j) (dp.cell i j))
  unfolding take_diagonal read write
  take_diagonal_runs i j dp p q f = ground (arith, f.rows, f.cols)

  abbrev least : ℕ → ℕ → Matrix → ℕ
  least i j dp = min (min (dp.cell (suc i) j) (dp.cell i (suc j))) (dp.cell i j) + 1

  take_least_runs :
      (i j : ℕ) (dp : Matrix)
      → i < length a
      → j < length b
      → Filled (suc i) (suc j) dp
      → take_least (suc i) (suc j) dp ≡ some (set_cell dp (suc i) (suc j) (least i j dp))
  unfolding take_least read write
  take_least_runs i j dp p q f = ground (arith, f.rows, f.cols)

  fill_cell_branch :
      (i j x y : ℕ) (dp : Matrix)
      → get_elem? a i ≡ some x
      → get_elem? b j ≡ some y
      → fill_cell a b (suc i) (suc j) dp
        ≡ (if x == y then take_diagonal (suc i) (suc j) dp else take_least (suc i) (suc j) dp)
  unfolding fill_cell
  fill_cell_branch i j x y dp p q = ground arith

  same_at_get :
      (i j x y : ℕ) → get_elem? a i ≡ some x → get_elem? b j ≡ some y → same_at a b i j ≡ (x == y)
  unfolding same_at
  same_at_get i j x y p q = ground arith

  cell_diagonal :
      (i j : ℕ) (dp : Matrix) → j < length b → Filled (suc i) (suc j) dp → dp.cell i j ≡ opt a b i j
  cell_diagonal i j dp q f = f.above i j (omega arith) (omega arith)

  cell_least :
      (i j : ℕ) (dp : Matrix)
      → i < length a
      → j < length b
      → same_at a b i j ≡ false
      → Filled (suc i) (suc j) dp
      → least i j dp ≡ opt a b (suc i) (suc j)
  cell_least i j dp p q other f = rw (
    opt_other a b i j other,
    f.row j p (omega arith),
    f.above i (suc j) (omega arith) q,
    cell_diagonal i j dp q f,
  )

  -- One round of the innermost loop computes the next cell.
  fill_cell-Filled :
      (i j : ℕ) (dp : Matrix)
      → i < length a
      → j < length b
      → Filled (suc i) (suc j) dp
      → (dp' : Matrix) × (fill_cell a b (suc i) (suc j) dp ≡ some dp')
        × Filled (suc i) (suc (suc j)) dp'
  fill_cell-Filled i j dp p q f =
      let (x, gx) = get_lt a i p in
      let (y, gy) = get_lt b j q in
      let branch = fill_cell_branch i j x y dp gx gy in
      let at = same_at_get i j x y gx gy in
      elim (Bool-cases (x == y)) [
        | inl same ↦ (
          set_cell dp (suc i) (suc j) (dp.cell i j),
          branch ∙ rw same (take_diagonal_runs i j dp p q f),
          Filled-set i j dp _ (cell_diagonal i j dp q f ∙ sym (opt_same a b i j (at ∙ same))) f,
        )
        | inr other ↦ (
          set_cell dp (suc i) (suc j) (least i j dp),
          branch ∙ rw other (take_least_runs i j dp p q f),
          Filled-set i j dp _ (cell_least i j dp p q (at ∙ other) f) f,
        )
      ]

  -- A row is done when its last cell is: the next row begins behind its border.
  next_row :
      (i : ℕ) (dp : Matrix)
      → suc i ≤ length a
      → Filled (suc i) (suc (length b)) dp
      → Filled (suc (suc i)) 1 dp
  next_row i dp p f = record {
    rows = f.rows;
    cols = f.cols;
    left = f.left;
    top = f.top;
    above = λ k l h h'. elim (Bool-cases (k == suc i)) [
      | inl e ↦ let e' : k ≡ suc i = ground arith in rw e' (f.row l p (omega arith))
      | inr n ↦ f.above k l (ground arith) h'
    ];
    row = λ l hi h.
        let e : l ≡ 0 = omega arith in
        rw e (f.left (suc (suc i)) hi ∙ sym (opt_left a b (suc (suc i))));
  }

  fill_row-Filled :
      (i : ℕ) (dp : Matrix)
      → i < length a
      → Filled (suc i) 1 dp
      → (dp' : Matrix) × (fill_row a b (suc i) dp ≡ some dp') × Filled (suc (suc i)) 1 dp'
  unfolding fill_row
  fill_row-Filled i dp p f =
      let (dp', runs, filled) =
        for_range_inv (λ k. Filled (suc i) (suc k)) (fill_cell a b (suc i)) (length b)
          (λ j m h. fill_cell-Filled i j m p h) (length b) 0 dp (omega arith) f in
      (dp', runs, next_row i dp' p filled)

  -- The borders: the first column, then the first row.
  record Left (i : ℕ) (dp : Matrix) : Type 0 where
    rows : dp.rows ≡ length a + 1
    cols : dp.cols ≡ length b + 1
    zeros : (l : ℕ) → dp.cell 0 l ≡ 0
    left : (k : ℕ) → k ≤ i → dp.cell k 0 ≡ k

  record Top (j : ℕ) (dp : Matrix) : Type 0 where
    rows : dp.rows ≡ length a + 1
    cols : dp.cols ≡ length b + 1
    left : (k : ℕ) → k ≤ length a → dp.cell k 0 ≡ k
    top : (l : ℕ) → l ≤ j → dp.cell 0 l ≡ l

  Left-round :
      (k : ℕ) (dp : Matrix)
      → k < length a
      → Left k dp
      → (dp' : Matrix) × (write dp (suc k) 0 (suc k) ≡ some dp') × Left (suc k) dp'
  Left-round k dp p f = (
    set_cell dp (suc k) 0 (suc k),
    write_in (suc k) 0 (suc k) dp (omega (arith, f.rows)) (omega (arith, f.cols)),
    record {
      rows = f.rows;
      cols = f.cols;
      zeros = λ l. ground (arith, f.zeros l);
      left = λ i h. ground (arith, f.left i);
    },
  )

  Top-round :
      (k : ℕ) (dp : Matrix)
      → k < length b
      → Top k dp
      → (dp' : Matrix) × (write dp 0 (suc k) (suc k) ≡ some dp') × Top (suc k) dp'
  Top-round k dp p f = (
    set_cell dp 0 (suc k) (suc k),
    write_in 0 (suc k) (suc k) dp (omega (arith, f.rows)) (omega (arith, f.cols)),
    record {
      rows = f.rows;
      cols = f.cols;
      left = λ i h. ground (arith, f.left i h);
      top = λ l h. ground (arith, f.top l);
    },
  )

  Left-make : Left 0 (make (length a + 1) (length b + 1))
  unfolding make
  Left-make = record { rows = refl; cols = refl; zeros = λ l. refl; left = λ k h. omega arith }

  Top-Left : (dp : Matrix) → Left (length a) dp → Top 0 dp
  Top-Left dp f = record {
    rows = f.rows;
    cols = f.cols;
    left = f.left;
    top = λ l h. let e : l ≡ 0 = omega arith in rw e (f.zeros 0);
  }

  Filled-Top : (dp : Matrix) → Top (length b) dp → Filled 1 1 dp
  Filled-Top dp f = record {
    rows = f.rows;
    cols = f.cols;
    left = f.left;
    top = f.top;
    above = λ k l h h'. let e : k ≡ 0 = omega arith in rw e (f.top l h' ∙ sym (opt_top a b l));
    row = λ l hi h. let e : l ≡ 0 = omega arith in rw e (f.left 1 hi ∙ sym (opt_left a b 1));
  }

  -- The loops run to their end, and the last cell is the recurrence's value for the whole words.
  fill_table-Filled : (dp : Matrix) × (fill_table a b ≡ some dp) × Filled (suc (length a)) 1 dp
  unfolding fill_table
  fill_table-Filled =
      let (m1, run1, left) =
        for_range_inv Left (λ i dp. write dp i 0 i) (length a) Left-round (length a) 0
          (make (length a + 1) (length b + 1)) (omega arith) Left-make in
      let (m2, run2, top) =
        for_range_inv Top (λ j dp. write dp 0 j j) (length b) Top-round (length b) 0 m1
          (omega arith) (Top-Left m1 left) in
      let (m3, run3, filled) =
        for_range_inv (λ k. Filled (suc k) 1) (fill_row a b) (length a) fill_row-Filled (length a) 0
          m2 (omega arith) (Filled-Top m2 top) in
      (m3, rw (run1, run2) run3, filled)

  -- The last cell of the filled table.
  pub fill_table-last :
      (dp : Matrix) × (fill_table a b ≡ some dp)
      × (read dp (length a) (length b) ≡ some (opt a b (length a) (length b)))
  fill_table-last =
      let (dp, run, f) = fill_table-Filled in
      (
        dp,
        run,
        read_in (length a) (length b) dp (omega (arith, f.rows)) (omega (arith, f.cols))
            ∙ ap some (f.above (length a) (length b) (omega arith) (omega arith)),
      )
