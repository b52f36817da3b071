-- ===== src/Worker/Spmd/Lockstep.antt =====
-- The parallel functions on the first process and on the others.
use activebsp.Base.{
  ℕ, ◌<◌, ◌≡◌, refl, sym, ap, ap₂, ◌∙◌, fun_ext, arith, ◌==◌, false, none, some, List, [], ◌∷◌,
  ◌++◌, map, length, All, get_elem?, touch, value_or, int_add, int_sub, Result, ok, fault,
  out_of_bounds, ◌>>=◌, >>=-assoc,
}
use activebsp.Worker.Spmd.{Actor, run_at, bsp_run, call_spmd, kill_slaves, slave_loop, master_runs}
use activebsp.Worker.Spmd.Table.{IsTable, function_of}

module _ {A : Type 0} where
  -- The functions at some addresses, one after another.
  unfoldable pub run_all : Actor A → List ℕ → A → Result A
  run_all a [] obj = ok obj
  run_all a (addr ∷ addrs) obj = elim (function_of a addr) [
    | none ↦ fault out_of_bounds
    | some f ↦ f obj >>= λ obj'. run_all a addrs obj'
  ]

  -- An address that is in the table, under its number and with its function.
  abbrev pub IsRegistered : Actor A → ℕ → Type 0
  IsRegistered a addr =
      (id : ℕ) × (f : A → Result A) × (a.spmd_function_ids addr ≡ some id)
      × (get_elem? a.spmd_functions id ≡ some f)

  -- The numbers that stand for the functions.
  abbrev pub numbers : Actor A → List ℕ → List ℕ
  numbers a addrs = map (λ addr. int_add (value_or 0 (a.spmd_function_ids addr)) 1) addrs

  run_all-step :
      (a : Actor A) (addr : ℕ) (addrs : List ℕ) (obj : A) {id : ℕ} {f : A → Result A}
      → a.spmd_function_ids addr ≡ some id
      → get_elem? a.spmd_functions id ≡ some f
      → run_all a (addr ∷ addrs) obj ≡ (f obj >>= λ obj'. run_all a addrs obj')
  unfolding run_all
  run_all-step a addr addrs obj e g = rw (e, g, run_all)

  run_at_lem :
      (a : Actor A) (id : ℕ) (obj : A) {f : A → Result A}
      → get_elem? a.spmd_functions id ≡ some f
      → run_at a id obj ≡ f obj
  unfolding run_at
  run_at_lem a id obj g = rw (g, run_at)

  call_spmd_lem :
      (a : Actor A) (id : ℕ) (obj : A) {f : A → Result A}
      → id < length a.spmd_functions
      → get_elem? a.spmd_functions id ≡ some f
      → call_spmd a id obj ≡ f obj
  unfolding call_spmd
  call_spmd_lem a id obj inside g =
      let some_there : (length a.spmd_functions == 0) ≡ false = ground arith in
      rw some_there (run_at_lem a id obj g)

  -- Looking up an address that is in the table leaves the table as it is.
  touch_known :
      (a : Actor A) (addr : ℕ) {id : ℕ}
      → a.spmd_function_ids addr ≡ some id
      → touch 0 addr a.spmd_function_ids ≡ a.spmd_function_ids
  touch_known a addr e = fun_ext (λ other. ground (arith, e))

  number_lem :
      (a : Actor A) (addr : ℕ) {id : ℕ}
      → a.spmd_function_ids addr ≡ some id
      → value_or 0 (a.spmd_function_ids addr) ≡ id
  number_lem a addr e = rw e

  bsp_run_lem :
      (a : Actor A) (addr : ℕ) (obj : A) {id : ℕ} {f : A → Result A}
      → a.spmd_function_ids addr ≡ some id
      → get_elem? a.spmd_functions id ≡ some f
      → bsp_run a addr obj ≡ (a, (int_add (value_or 0 (a.spmd_function_ids addr)) 1, f obj))
  unfolding bsp_run
  bsp_run_lem a addr obj {id = id} e g =
      ap₂
        (λ known result. (
          record a { spmd_function_ids = known },
          (int_add (value_or 0 (a.spmd_function_ids addr)) 1, result),
        ))
        (touch_known a addr e)
        (ap (λ n. run_at (record a { spmd_function_ids = touch 0 addr a.spmd_function_ids }) n obj)
            (number_lem a addr e)
          ∙ run_at_lem (record a { spmd_function_ids = touch 0 addr a.spmd_function_ids }) id obj g)

  master_runs_lem :
      (a : Actor A) (addrs : List ℕ) (obj : A)
      → All (IsRegistered a) addrs
      → master_runs a obj addrs ≡ (run_all a addrs obj >>= λ done. ok (done, numbers a addrs))
  unfolding master_runs run_all
  master_runs_lem a [] obj h = refl
  master_runs_lem a (addr ∷ addrs) obj ((id, f, e, g), hs) =
      let sent = int_add (value_or 0 (a.spmd_function_ids addr)) 1 in
      let later : (obj' : A)
          → (master_runs a obj' addrs >>= λ done. ok (done.0, sent ∷ done.1))
            ≡ (run_all a addrs obj' >>= λ done. ok (done, sent ∷ numbers a addrs)) =
        λ obj'.
          ap (λ r. r >>= λ done. ok (done.0, sent ∷ done.1)) (master_runs_lem a addrs obj' hs)
          ∙ >>=-assoc (run_all a addrs obj') (λ done. ok (done, numbers a addrs))
              (λ done. ok (done.0, sent ∷ done.1)) in
      ap
        (λ (r : Actor A × (ℕ × Result A)).
          r.1.1 >>= λ obj'. master_runs r.0 obj' addrs >>= λ done. ok (done.0, r.1.0 ∷ done.1))
        (bsp_run_lem a addr obj e g)
      ∙ ap (λ k. f obj >>= k) (fun_ext later)
      ∙ sym (>>=-assoc (f obj) (run_all a addrs) (λ done. ok (done, sent ∷ numbers a addrs)))
      ∙ ap (λ r. r >>= λ done. ok (done, sent ∷ numbers a addrs))
          (sym (run_all-step a addr addrs obj e g))

  pub slave_loop_lem :
      (a : Actor A) (addrs : List ℕ) (obj : A) (rest : List ℕ)
      → IsTable a
      → All (IsRegistered a) addrs
      → slave_loop a obj (numbers a addrs ++ (kill_slaves ∷ rest))
        ≡ (run_all a addrs obj >>= λ done. ok (some (done, rest)))
  unfolding slave_loop run_all
  slave_loop_lem a [] obj rest v h = refl
  slave_loop_lem a (addr ∷ addrs) obj rest v ((id, f, e, g), hs) =
      let n = value_or 0 (a.spmd_function_ids addr) in
      let same : n ≡ id = number_lem a addr e in
      let inside : id < length a.spmd_functions = v.known addr id e in
      let go_on : (int_add n 1 == 0) ≡ false = ground (arith, same, inside, v.few) in
      let back : int_sub (int_add n 1) 1 ≡ id = omega (arith, same, inside, v.few) in
      rw go_on (
        ap (λ r. r >>= λ obj'. slave_loop a obj' (numbers a addrs ++ (kill_slaves ∷ rest)))
          (ap (λ m. call_spmd a m obj) back ∙ call_spmd_lem a id obj inside g)
        ∙ ap (λ k. f obj >>= k) (fun_ext (λ obj'. slave_loop_lem a addrs obj' rest v hs))
        ∙ sym (>>=-assoc (f obj) (run_all a addrs) (λ done. ok (some (done, rest))))
        ∙ ap (λ r. r >>= λ done. ok (some (done, rest))) (sym (run_all-step a addr addrs obj e g)))

  -- The master runs functions of the table, by their addresses, and then stops the other processes.
  -- It runs them in their order on its own object and sends a number for each; every other process
  -- that gets these numbers runs the same functions in the same order on its object, one time each,
  -- and its loop ends at the stop number with what comes after left, unless a function faults.
  pub lockstep :
      (a : Actor A) (addrs : List ℕ) (master slave : A) (rest : List ℕ)
      → IsTable a
      → All (IsRegistered a) addrs
      → (sent : List ℕ) × (master_runs a master addrs
          ≡ (run_all a addrs master >>= λ done. ok (done, sent)))
        × (slave_loop a slave (sent ++ (kill_slaves ∷ rest))
            ≡ (run_all a addrs slave >>= λ done. ok (some (done, rest))))
  lockstep a addrs master slave rest v h =
      (numbers a addrs, master_runs_lem a addrs master h, slave_loop_lem a addrs slave rest v h)
