-- ===== src/Migrate/Refines.antt =====
-- Run against its specification: each file that is not recorded is run once, in the order of the
-- names, and recorded with it.
use multi_tenant_authorizati.Base.{
  ◌≡◌, refl, ap, ◌⊎◌, inl, inr, suc, String, true, false, Option, none, some, List, [], ◌∷◌, ◌++◌,
  arith, if◌then◌else◌, Bool-cases, Option-cases,
}
use multi_tenant_authorizati.Migrate.{
  MigrateError, Outcome, done, failed, Store, World, Env, versions, is_recorded, with_table,
  apply_one, apply_file, apply_all, sort_strings, run, begin, apply, record_version, commit, check,
  read, parse_database_url, connect, acquire_migration_lock, create_schema_migrations,
  list_migrations,
}

abbrev pub listed_of : Option (List String) → List String
listed_of none = []
listed_of (some files) = sort_strings files

module _ {D : Type 0} where
  abbrev pub recorded_with : String → Store D → Option D → Option (Store D)
  recorded_with v s none = none
  recorded_with v s (some d) = some (record { schema = d; table = some (v ∷ versions s.table) })

  abbrev pub script_of : Env D → Store D → Option String → Option D
  script_of e s none = none
  script_of e s (some body) = e.exec_script body s.schema

  -- What one file is meant to do; none if it cannot be read or its script has an error.
  abbrev pub migrate_one : Env D → String → Store D → Option (Store D)
  migrate_one e v s =
      if is_recorded v s then some s else recorded_with v s (script_of e s (e.read_file v))

  abbrev pub and_then : Option (Store D) → (Store D → Option (Store D)) → Option (Store D)
  and_then none k = none
  and_then (some s) k = k s

  -- What the files are meant to do, one after the other.
  unfoldable pub migrate_all : Env D → List String → Store D → Option (Store D)
  migrate_all e [] s = some s
  migrate_all e (v ∷ vs) s = and_then (migrate_one e v s) (migrate_all e vs)

  abbrev pub HasTable : Store D → Type 0
  HasTable s = (vs : List String) × (s.table ≡ some vs)

  -- The transaction of one file has recorded it with its script's work, or has changed nothing.
  abbrev RanOne : Env D → String → String → Store D → Outcome Unit → Store D → Type 0
  RanOne e v body s r s' =
      ((r ≡ done tt)
        × ((d : D) × (e.exec_script body s.schema ≡ some d)
            × (s' ≡ record { schema = d; table = some (v ∷ versions s.table) })))
      ⊎ ((x : MigrateError) × (r ≡ failed x) × (s' ≡ s))

  apply_one-RanOne :
      (v body : String) (e : Env D) (w : World D) (vs : List String)
      → w.store.table ≡ some vs
      → is_recorded v w.store ≡ false
      → RanOne e v body w.store (apply_one v body e w).0 (apply_one v body e w).1.store
  unfolding apply_one
  apply_one-RanOne v body e w vs present new = elim (Bool-cases (e.fails w.step)) [
    | inl down ↦ inr (begin v, ground arith, ground arith)
    | inr up ↦ elim (Bool-cases (e.fails (suc w.step))) [
      | inl down ↦ inr (apply v, ground arith, ground arith)
      | inr up₁ ↦ elim (Option-cases (e.exec_script body w.store.schema)) [
        | inl bad ↦ inr (apply v, ground arith, ground arith)
        | inr (d, ran) ↦ elim (Bool-cases (e.fails (suc (suc w.step)))) [
          | inl down ↦ inr (record_version v, ground arith, ground arith)
          | inr up₂ ↦ elim (Bool-cases (e.fails (suc (suc (suc w.step))))) [
            | inl down ↦ inr (commit v, ground arith, ground arith)
            | inr up₃ ↦ inl (ground arith, (d, ran, ground arith))
          ]
        ]
      ]
    ]
  ]

  -- The loop has done one file, or failed at it and changed nothing.
  abbrev pub OneDone : Env D → String → Store D → Outcome Unit → Store D → Type 0
  OneDone e v s r s' =
      ((r ≡ done tt) × (migrate_one e v s ≡ some s') × HasTable s')
      ⊎ ((x : MigrateError) × (r ≡ failed x) × (s' ≡ s))

  pub apply_file-OneDone :
      (v : String) (e : Env D) (w : World D)
      → HasTable w.store
      → OneDone e v w.store (apply_file v e w).0 (apply_file v e w).1.store
  unfolding apply_file apply_one
  apply_file-OneDone v e w (vs, present) = elim (Bool-cases (e.fails w.step)) [
    | inl down ↦ inr (check v, ground arith, ground arith)
    | inr up ↦ elim (Bool-cases (is_recorded v w.store)) [
      | inl old ↦ inl (ground arith, ground arith, (vs, ground arith))
      | inr new ↦ elim (Option-cases (e.read_file v)) [
        | inl unreadable ↦ inr (read v, ground arith, ground arith)
        | inr (body, readable) ↦
            elim (apply_one-RanOne v body e (record w { step = suc w.step }) vs present new) [
              | inl (r, (d, ran, s)) ↦ inl (ground arith, ground arith, (v ∷ vs, ground arith))
              | inr (x, r, s) ↦ inr (x, ground arith, ground arith)
            ]
      ]
    ]
  ]

  -- The first files are done, whole, and no other.
  abbrev pub Partly : Env D → List String → Store D → Store D → Type 0
  Partly e vs s s' =
      (ds : List String) × (rest : List String) × (vs ≡ ds ++ rest) × (migrate_all e ds s ≡ some s')

  abbrev pub AllDone : Env D → List String → Store D → Outcome Unit → Store D → Type 0
  AllDone e vs s r s' =
      ((r ≡ done tt) × (migrate_all e vs s ≡ some s'))
      ⊎ ((x : MigrateError) × (r ≡ failed x) × Partly e vs s s')

  apply_all-AllDone :
      (vs : List String) (e : Env D) (w : World D)
      → HasTable w.store
      → AllDone e vs w.store (apply_all vs e w).0 (apply_all vs e w).1.store
  unfolding apply_all migrate_all
  apply_all-AllDone [] e w present = inl (refl, refl)
  apply_all-AllDone (v ∷ vs) e w present = elim (apply_file-OneDone v e w present) [
    | inr (x, r, s) ↦ inr (x, ground arith, ([], v ∷ vs, refl, ground arith))
    | inl (r, s, t) ↦ elim (apply_all-AllDone vs e (apply_file v e w).1 t) [
      | inl (r', s') ↦ inl (ground arith, ground arith)
      | inr (x, r', (ds, rest, split, s')) ↦
          inr (x, ground arith, (v ∷ ds, rest, ap (λ l. v ∷ l) split, ground arith))
    ]
  ]

  -- The files in the order in which Run takes them.
  abbrev pub listed : Env D → List String
  listed e = listed_of e.glob

  -- Run has done all files, or it has failed when it had done the first of them, or none.
  abbrev pub Refined : Env D → Store D → Outcome Unit → Store D → Type 0
  Refined e s r s' =
      ((r ≡ done tt) × (migrate_all e (listed e) (with_table s) ≡ some s'))
      ⊎ ((x : MigrateError) × (r ≡ failed x) × ((s' ≡ s) ⊎ Partly e (listed e) (with_table s) s'))

  -- Run does what the specification of the files says, or a part of it: where it succeeds, every
  -- file in the order of the names; where it fails, the first files of that order, each with its
  -- version or not at all.
  pub run-Refined : (e : Env D) (w : World D) → Refined e w.store (run e w).0 (run e w).1.store
  unfolding run migrate_all
  run-Refined e w = elim (Bool-cases e.url_parses) [
    | inr bad ↦ inr (parse_database_url, ground arith, inl (ground arith))
    | inl fine ↦ elim (Bool-cases (e.fails w.step)) [
      | inl down ↦ inr (connect, ground arith, inl (ground arith))
      | inr up ↦ elim (Bool-cases (e.fails (suc w.step))) [
        | inl down ↦ inr (acquire_migration_lock, ground arith, inl (ground arith))
        | inr up₁ ↦ elim (Bool-cases (e.fails (suc (suc w.step)))) [
          | inl down ↦ inr (create_schema_migrations, ground arith, inl (ground arith))
          | inr up₂ ↦ elim (Option-cases e.glob) [
            | inl unlisted ↦
                inr (list_migrations, ground arith, inr ([], [], ground arith, ground arith))
            | inr (files, found) ↦
                elim (apply_all-AllDone (sort_strings files) e
                  (record {
                    store = with_table w.store;
                    locked = true;
                    step = suc (suc (suc w.step));
                  })
                  (versions w.store.table, refl)) [
                    | inl (r, s) ↦ inl (ground arith, ground arith)
                    | inr (x, r, (ds, rest, split, s)) ↦
                        inr (x, ground arith, inr (ds, rest, ground arith, ground arith))
                  ]
          ]
        ]
      ]
    ]
  ]
