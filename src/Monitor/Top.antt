-- ===== src/Monitor/Top.antt =====
-- The two lists of `_top_processes` in app/monitor.py.
use mathlib.Core.Path.{subst}
use mathlib.Core.List.{Perm}
use mathlib.Core.List.Perm
use keekars_pi_vpn.Base.{
  ℕ, zero, suc, ◌≡◌, ◌≤◌, ◌⊎◌, inl, inr, refl, sym, ap, List, [], ◌∷◌, ◌++◌, ltb, length, All,
  Bool-cases, arith,
}
use keekars_pi_vpn.Monitor.Listing.{Distinct, IsListing, known-IsListing}
use keekars_pi_vpn.Monitor.Stats.{
  drop_ended, open_new, ProcessRow, Processes, process_rows, insert_by, sorted_by, first_rows,
  top_n, top_processes,
}

module _ (key : ProcessRow → ℕ) where
  abbrev pub IsAtMost : ℕ → ProcessRow → Type 0
  IsAtMost n r = key r ≤ n

  abbrev pub IsDescending : List ProcessRow → Type 0
  IsDescending [] = Unit
  IsDescending (r ∷ rs) = All (IsAtMost (key r)) rs × IsDescending rs

  -- The first of the rows by a key: `rest` is what has been left out.
  pub record IsTop (rows top : List ProcessRow) : Type 0 where
    pub rest : List ProcessRow
    pub all_rows : Perm (top ++ rest) rows
    pub descending : IsDescending top
    pub above_rest : All (λ r. All (IsAtMost (key r)) rest) top
    pub full : (length top ≡ top_n) ⊎ ((length top ≤ top_n) × (rest ≡ []))

  insert_by-Perm : (r : ProcessRow) (rs : List ProcessRow) → Perm (insert_by key r rs) (r ∷ rs)
  unfolding insert_by
  insert_by-Perm r [] = Perm.rfl
  insert_by-Perm r (s ∷ ss) = elim (Bool-cases (ltb (key r) (key s))) [
    | inl e ↦ rw e (Perm.trans (Perm.cons s (insert_by-Perm r ss)) (Perm.swap r s ss))
    | inr e ↦ rw e Perm.rfl
  ]

  sorted_by-Perm : (rs : List ProcessRow) → Perm (sorted_by key rs) rs
  unfolding sorted_by
  sorted_by-Perm [] = Perm.rfl
  sorted_by-Perm (r ∷ rs) =
      Perm.trans (insert_by-Perm r (sorted_by key rs)) (Perm.cons r (sorted_by-Perm rs))

  insert_by-IsAtMost :
      (n : ℕ) (r : ProcessRow) (rs : List ProcessRow)
      → key r ≤ n
      → All (IsAtMost n) rs
      → All (IsAtMost n) (insert_by key r rs)
  unfolding insert_by
  insert_by-IsAtMost n r [] h k = (h, tt)
  insert_by-IsAtMost n r (s ∷ ss) h k = elim (Bool-cases (ltb (key r) (key s))) [
    | inl e ↦ rw e (k.0, insert_by-IsAtMost n r ss h k.1)
    | inr e ↦ rw e (h, k)
  ]

  IsAtMost-trans :
      (m n : ℕ) (rs : List ProcessRow) → m ≤ n → All (IsAtMost m) rs → All (IsAtMost n) rs
  IsAtMost-trans m n [] h k = tt
  IsAtMost-trans m n (r ∷ rs) h k = (omega (arith, h, k.0), IsAtMost-trans m n rs h k.1)

  insert_by-IsDescending :
      (r : ProcessRow) (rs : List ProcessRow) → IsDescending rs → IsDescending (insert_by key r rs)
  unfolding insert_by
  insert_by-IsDescending r [] h = (tt, tt)
  insert_by-IsDescending r (s ∷ ss) h = elim (Bool-cases (ltb (key r) (key s))) [
    | inl e ↦
        rw e
          (insert_by-IsAtMost (key s) r ss (ground (arith, e)) h.0, insert_by-IsDescending r ss h.1)
    | inr e ↦
        rw e ((ground (arith, e), IsAtMost-trans (key s) (key r) ss (ground (arith, e)) h.0), h)
  ]

  sorted_by-IsDescending : (rs : List ProcessRow) → IsDescending (sorted_by key rs)
  unfolding sorted_by
  sorted_by-IsDescending [] = tt
  sorted_by-IsDescending (r ∷ rs) =
      insert_by-IsDescending r (sorted_by key rs) (sorted_by-IsDescending rs)

  -- `rows[n:]`
  later_rows : ℕ → List ProcessRow → List ProcessRow
  later_rows zero rows = rows
  later_rows (suc n) [] = []
  later_rows (suc n) (r ∷ rs) = later_rows n rs

  first-later : (n : ℕ) (rs : List ProcessRow) → first_rows n rs ++ later_rows n rs ≡ rs
  unfolding first_rows later_rows
  first-later zero rs = refl
  first-later (suc n) [] = refl
  first-later (suc n) (r ∷ rs) = ap (λ l. r ∷ l) (first-later n rs)

  IsAtMost-first :
      (m n : ℕ) (rs : List ProcessRow)
      → All (IsAtMost m) rs
      → All (IsAtMost m) (first_rows n rs) × All (IsAtMost m) (later_rows n rs)
  unfolding first_rows later_rows
  IsAtMost-first m zero rs h = (tt, h)
  IsAtMost-first m (suc n) [] h = (tt, tt)
  IsAtMost-first m (suc n) (r ∷ rs) h = let (k, l) = IsAtMost-first m n rs h.1 in ((h.0, k), l)

  IsDescending-first :
      (n : ℕ) (rs : List ProcessRow)
      → IsDescending rs
      → IsDescending (first_rows n rs)
        × All (λ r. All (IsAtMost (key r)) (later_rows n rs)) (first_rows n rs)
  unfolding first_rows later_rows
  IsDescending-first zero rs h = (tt, tt)
  IsDescending-first (suc n) [] h = (tt, tt)
  IsDescending-first (suc n) (r ∷ rs) h =
      let (below, above) = IsAtMost-first (key r) n rs h.0 in
      let (d, k) = IsDescending-first n rs h.1 in ((below, d), (above, k))

  full-first :
      (n : ℕ) (rs : List ProcessRow)
      → (length (first_rows n rs) ≡ n) ⊎ ((length (first_rows n rs) ≤ n) × (later_rows n rs ≡ []))
  unfolding first_rows later_rows
  full-first zero rs = inl refl
  full-first (suc n) [] = inr (omega arith, refl)
  full-first (suc n) (r ∷ rs) = elim (full-first n rs) [
    | inl e ↦ inl (ap suc e)
    | inr (l, e) ↦ inr (omega (arith, l), e)
  ]

  first_rows-IsTop : (rs : List ProcessRow) → IsTop rs (first_rows top_n (sorted_by key rs))
  first_rows-IsTop rs =
      let rows = sorted_by key rs in
      let (d, k) = IsDescending-first top_n rows (sorted_by-IsDescending rs) in
      record {
        rest = later_rows top_n rows;
        all_rows = subst (λ l. Perm l rs) (sym (first-later top_n rows)) (sorted_by-Perm rs);
        descending = d;
        above_rest = k;
        full = full-first top_n rows;
      }

-- Each of the two lists of `_top_processes` holds ten rows, or all if they are at most ten, of the
-- processes that answer: each process that runs and was known before or can be opened counts once,
-- if the known ones are distinct, and just those are known afterwards. A list's figure does not
-- grow along it, and no row that is left out has a larger figure than one in the list.
pub top_processes-IsTop :
    (p : Processes) (procs : List ℕ)
    → Distinct procs
    → (rows : List ProcessRow) × IsListing p procs (top_processes p procs).1 rows
      × IsTop (λ r. r.cpu_percent) rows (top_processes p procs).0.0
      × IsTop (λ r. r.mem) rows (top_processes p procs).0.1
unfolding top_processes
top_processes-IsTop p procs h = (
  process_rows p (open_new p p.pids (drop_ended p.pids procs)),
  known-IsListing p procs h,
  first_rows-IsTop (λ r. r.cpu_percent) _,
  first_rows-IsTop (λ r. r.mem) _,
)
