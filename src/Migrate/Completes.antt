-- ===== src/Migrate/Completes.antt =====
-- Run succeeds where nothing fails, and once it has succeeded it has nothing left to do.
use multi_tenant_authorizati.Base.{
  ◌≡◌, refl, sym, ap, ◌∙◌, subst, inl, inr, ℕ, suc, String, true, false, some, List, [], ◌∷◌, ◌++◌,
  eq_iff, arith, Bool-cases, Option-cases,
}
use multi_tenant_authorizati.Db.Rows.{All}
use multi_tenant_authorizati.Migrate.{
  done, Store, World, Env, versions, is_recorded, with_table, apply_one, apply_file, apply_all,
  sort_strings, run,
}
use multi_tenant_authorizati.Migrate.Refines.{
  migrate_one, migrate_all, HasTable, apply_file-OneDone, listed, listed_of, run-Refined,
}

append_nil : (vs : List String) → vs ≡ vs ++ []
append_nil [] = refl
append_nil (v ∷ vs) = ap (λ l. v ∷ l) (append_nil vs)

module _ {D : Type 0} where
  -- A database that answers every call.
  abbrev pub Answers : Env D → Type 0
  Answers e = (n : ℕ) → e.fails n ≡ false

  apply_file_completes :
      (v : String) (e : Env D) (w : World D) (s : Store D)
      → Answers e
      → HasTable w.store
      → migrate_one e v w.store ≡ some s
      → (apply_file v e w).0 ≡ done tt
  unfolding apply_file apply_one
  apply_file_completes v e w s up (vs, present) h =
      let up₀ = up w.step in
      let up₁ = up (suc w.step) in
      let up₂ = up (suc (suc w.step)) in
      let up₃ = up (suc (suc (suc w.step))) in
      let up₄ = up (suc (suc (suc (suc w.step)))) in
      elim (Bool-cases (is_recorded v w.store)) [
        | inl old ↦ ground arith
        | inr new ↦ elim (Option-cases (e.read_file v)) [
          | inl unreadable ↦ ground arith
          | inr (body, readable) ↦ elim (Option-cases (e.exec_script body w.store.schema)) [
            | inl bad ↦ ground arith
            | inr (d, ran) ↦ ground arith
          ]
        ]
      ]

  apply_all_completes :
      (vs : List String) (e : Env D) (w : World D) (s : Store D)
      → Answers e
      → HasTable w.store
      → migrate_all e vs w.store ≡ some s
      → ((apply_all vs e w).0 ≡ done tt) × ((apply_all vs e w).1.store ≡ s)
  unfolding apply_all migrate_all
  apply_all_completes [] e w s up present h = (refl, ground arith)
  apply_all_completes (v ∷ vs) e w s up present h = elim (Option-cases (migrate_one e v w.store)) [
    | inl bad ↦ absurd (ground arith)
    | inr (s₁, one) ↦
        let first = apply_file_completes v e w s₁ up present one in
        elim (apply_file-OneDone v e w present) [
          | inr (x, r, q) ↦ absurd (ground arith)
          | inl (r, q, t) ↦
              let rest = apply_all_completes vs e (apply_file v e w).1 s up t (ground arith) in
              (ground arith, ground arith)
        ]
  ]

  -- Where the URL is good, the database answers every call, the directory can be listed, and every
  -- file that is not recorded can be read and has a script without errors, Run succeeds, and leaves
  -- what the specification says.
  pub run-completes :
      (e : Env D) (w : World D) (files : List String) (s : Store D)
      → e.url_parses ≡ true
      → Answers e
      → e.glob ≡ some files
      → migrate_all e (sort_strings files) (with_table w.store) ≡ some s
      → ((run e w).0 ≡ done tt) × ((run e w).1.store ≡ s)
  unfolding run
  run-completes e w files s good up found h =
      let all =
        apply_all_completes (sort_strings files) e
          (record { store = with_table w.store; locked = true; step = suc (suc (suc w.step)) }) s up
          (versions w.store.table, refl) h in
      let up₀ = up w.step in
      let up₁ = up (suc w.step) in let up₂ = up (suc (suc w.step)) in (ground arith, ground arith)

  abbrev IsDone : List String → Store D → Type 0
  IsDone vs s = All (λ v. is_recorded v s ≡ true) vs

  migrate_one_keeps :
      (e : Env D) (u v : String) (s s' : Store D)
      → migrate_one e v s ≡ some s'
      → is_recorded u s ≡ true
      → is_recorded u s' ≡ true
  migrate_one_keeps e u v s s' h old = ground arith

  migrate_one_records :
      (e : Env D) (v : String) (s s' : Store D)
      → migrate_one e v s ≡ some s'
      → is_recorded v s' ≡ true
  migrate_one_records e v s s' h = let same = (eq_iff v v).1 refl in ground arith

  migrate_all_keeps :
      (e : Env D) (u : String) (vs : List String) (s s' : Store D)
      → migrate_all e vs s ≡ some s'
      → is_recorded u s ≡ true
      → is_recorded u s' ≡ true
  unfolding migrate_all
  migrate_all_keeps e u [] s s' h old = ground arith
  migrate_all_keeps e u (v ∷ vs) s s' h old = elim (Option-cases (migrate_one e v s)) [
    | inl bad ↦ absurd (ground arith)
    | inr (s₁, one) ↦
        migrate_all_keeps e u vs s₁ s' (ground arith) (migrate_one_keeps e u v s s₁ one old)
  ]

  migrate_all-IsDone :
      (e : Env D) (vs : List String) (s s' : Store D) → migrate_all e vs s ≡ some s' → IsDone vs s'
  unfolding migrate_all
  migrate_all-IsDone e [] s s' h = tt
  migrate_all-IsDone e (v ∷ vs) s s' h = elim (Option-cases (migrate_one e v s)) [
    | inl bad ↦ absurd (ground arith)
    | inr (s₁, one) ↦ (
      migrate_all_keeps e v vs s₁ s' (ground arith) (migrate_one_records e v s s₁ one),
      migrate_all-IsDone e vs s₁ s' (ground arith),
    )
  ]

  -- The first of the files that are done change nothing.
  migrate_all_again :
      (e : Env D) (ds rest : List String) (s : Store D)
      → IsDone (ds ++ rest) s
      → migrate_all e ds s ≡ some s
  unfolding migrate_all
  migrate_all_again e [] rest s h = refl
  migrate_all_again e (v ∷ ds) rest s (old, h) = rw (old) (migrate_all_again e ds rest s h)

  migrate_one-HasTable :
      (e : Env D) (v : String) (s s' : Store D)
      → HasTable s
      → migrate_one e v s ≡ some s'
      → HasTable s'
  migrate_one-HasTable e v s s' (vs, t) h = elim (Bool-cases (is_recorded v s)) [
    | inl old ↦ (vs, ground arith)
    | inr new ↦ (v ∷ vs, ground arith)
  ]

  migrate_all-HasTable :
      (e : Env D) (vs : List String) (s s' : Store D)
      → HasTable s
      → migrate_all e vs s ≡ some s'
      → HasTable s'
  unfolding migrate_all
  migrate_all-HasTable e [] s s' (vs, t) h = (vs, ground arith)
  migrate_all-HasTable e (v ∷ vs) s s' t h = elim (Option-cases (migrate_one e v s)) [
    | inl bad ↦ absurd (ground arith)
    | inr (s₁, one) ↦
        migrate_all-HasTable e vs s₁ s' (migrate_one-HasTable e v s s₁ t one) (ground arith)
  ]

  with_table_id : (s : Store D) → HasTable s → with_table s ≡ s
  with_table_id s (vs, t) =
      ap (λ x. record { schema = s.schema; table = x }) (ap (λ x. some (versions x)) t ∙ sym t)

  -- A part of files that are all done changes nothing.
  partly_again :
      (e : Env D) (vs ds rest : List String) (s s' : Store D)
      → IsDone vs s
      → vs ≡ ds ++ rest
      → migrate_all e ds s ≡ some s'
      → s' ≡ s
  partly_again e vs ds rest s s' all split h =
      let same = migrate_all_again e ds rest s (subst (λ l. IsDone l s) split all) in ground arith

  run_again_store :
      (e : Env D) (w : World D)
      → IsDone (listed e) w.store
      → HasTable w.store
      → (run e w).1.store ≡ w.store
  run_again_store e w all t =
      let fixed = with_table_id w.store t in
      elim (run-Refined e w) [
        | inl (r, h) ↦
            partly_again e (listed e) (listed e) [] w.store _ all (append_nil (listed e))
              (ground arith)
        | inr (x, r, inl h) ↦ h
        | inr (x, r, inr (ds, rest, split, h)) ↦
            partly_again e (listed e) ds rest w.store _ all split (ground arith)
      ]

  -- Re-running is a no-op: when Run has succeeded, a second Run over the same files leaves the
  -- database as it is, whatever the files hold by then and whichever of its calls fail.
  pub run_again :
      (e e' : Env D) (w : World D) (n : ℕ)
      → (run e w).0 ≡ done tt
      → e'.glob ≡ e.glob
      → (run e' (record (run e w).1 { step = n })).1.store ≡ (run e w).1.store
  run_again e e' w n h same = elim (run-Refined e w) [
    | inr (x, r, q) ↦ absurd (ground arith)
    | inl (r, q) ↦
        run_again_store e' (record (run e w).1 { step = n })
          (subst (λ g. IsDone (listed_of g) (run e w).1.store) (sym same)
            (migrate_all-IsDone e (listed e) (with_table w.store) (run e w).1.store q))
          (migrate_all-HasTable e (listed e) (with_table w.store) (run e w).1.store
            (versions w.store.table, refl) q)
  ]
