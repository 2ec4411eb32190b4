-- ===== src/Database/Atomic.antt =====
-- A constructor makes its whole schema or nothing.
use suda_gureum.Base.{
  ◌≡◌, refl, sym, ap, ◌∙◌, ◌⊎◌, inl, inr, Bool, true, false, List, [], ◌∷◌, Option, none, some,
  arith, Bytes, codes,
}
use suda_gureum.Base.Result.{Exception}
use suda_gureum.Configure.{ConfigureMap, get}
use suda_gureum.Database.{
  Statement, Schema, create_if_not_exists, Outside, and_then, on_exception, made, on_data_path,
  database_file, exec_all, run_transaction, set_up, on_file, construct,
}
use suda_gureum.Log.{value_or}
use suda_gureum.Database.Schemas.{create_all, create_all-twice}

-- The schema that a call leaves: with all objects if it returned, else as it was.
abbrev pub left : List Statement → Option Exception → Schema → Schema
left sts none schema = create_all sts schema
left sts (some e) schema = schema

left-create_all :
    (sts : List Statement) (result : Option Exception) (schema : Schema)
    → left sts result (create_all sts schema) ≡ create_all sts schema
left-create_all sts none schema = create_all-twice sts schema
left-create_all sts (some e) schema = refl

module _ (o : Outside) (sts : List Statement) (file : Bytes) (s : Schema) where
  -- A call, begun where the schema was `s`, leaves what its result says, and if it returned no
  -- transaction.
  record Leaves (r : Option Exception × o.World) : Type 0 where
    leaves : o.schema file r.1 ≡ left sts r.0 s
    ends : r.0 ≡ none → o.in_transaction file r.1 ≡ false

  -- The same, also if it threw.
  abbrev LeavesIdle : Option Exception × o.World → Type 0
  LeavesIdle r = (o.schema file r.1 ≡ left sts r.0 s) × (o.in_transaction file r.1 ≡ false)

  thrown-Leaves : (e : Exception) (w : o.World) → o.schema file w ≡ s → Leaves (some e, w)
  thrown-Leaves e w h = record { leaves = h; ends = λ r. ground (arith, r) }

  and_then-Leaves :
      (r : Option Exception × o.World) (rest : o.World → Option Exception × o.World)
      → o.schema file r.1 ≡ s
      → (r.0 ≡ none → Leaves (rest r.1))
      → Leaves (and_then o r rest)
  and_then-Leaves (none, w) rest h on = on refl
  and_then-Leaves (some e, w) rest h on = thrown-Leaves e w h

  rollback-LeavesIdle :
      (r : Option Exception × o.World) → Leaves r → LeavesIdle (on_exception o (o.rollback file) r)
  rollback-LeavesIdle (none, w) v = (v.leaves, v.ends refl)
  rollback-LeavesIdle (some e, w) v =
      let (idle, same) = o.rollback_lem file w in (same ∙ v.leaves, idle)

  close-LeavesIdle :
      (r : Option Exception × o.World) → LeavesIdle r → LeavesIdle (on_exception o (o.close file) r)
  close-LeavesIdle (none, w) v = v
  close-LeavesIdle (some e, w) (h, idle) =
      let (still, same) = o.close_lem file w idle in (same ∙ h, still)

  and_then-LeavesIdle :
      (r : Option Exception × o.World) (rest : o.World → Option Exception × o.World)
      → o.schema file r.1 ≡ s
      → ((e : Exception) → r.0 ≡ some e → o.in_transaction file r.1 ≡ false)
      → (r.0 ≡ none → LeavesIdle (rest r.1))
      → LeavesIdle (and_then o r rest)
  and_then-LeavesIdle (none, w) rest h idle on = on refl
  and_then-LeavesIdle (some e, w) rest h idle on = (h, idle e refl)

  result-Leaves :
      (r : Option Exception × o.World)
      → (r.0 ≡ none → (o.in_transaction file r.1 ≡ false) × (o.schema file r.1 ≡ create_all sts s))
      → ((e : Exception) → r.0 ≡ some e → o.schema file r.1 ≡ s)
      → Leaves r
  result-Leaves (none, w) returned thrown =
      let (idle, h) = returned refl in record { leaves = h; ends = λ _. idle }
  result-Leaves (some e, w) returned thrown = thrown-Leaves e w (thrown e refl)

  commit-Leaves :
      (w : o.World)
      → o.in_transaction file w ≡ true
      → o.schema file w ≡ s
      → o.pending file w ≡ create_all sts s
      → Leaves (o.commit file w)
  commit-Leaves w open_one h p =
      result-Leaves (o.commit file w)
        (λ r. let (idle, e) = o.commit_lem file w open_one r in (idle, e ∙ p))
        (λ e r. o.commit_thrown_lem file w e open_one r ∙ h)

module _ (o : Outside) (file : Bytes) where
  -- The statements within a transaction: nothing is committed, and if all return the transaction is open
  -- and sees their objects.
  record Runs (sts : List Statement) (w : o.World) (r : Option Exception × o.World) : Type 0 where
    kept : o.schema file r.1 ≡ o.schema file w
    still : r.0 ≡ none → o.in_transaction file r.1 ≡ true
    sees : r.0 ≡ none → o.pending file r.1 ≡ create_all sts (o.pending file w)

  and_then-Runs :
      (st : Statement) (sts : List Statement) (w : o.World) (r : Option Exception × o.World)
      → o.schema file r.1 ≡ o.schema file w
      → (r.0 ≡ none
          → (o.in_transaction file r.1 ≡ true)
            × (o.pending file r.1 ≡ create_if_not_exists st (o.pending file w)))
      → ((v : o.World) → o.in_transaction file v ≡ true → Runs sts v (exec_all o sts file v))
      → Runs (st ∷ sts) w (and_then o r (λ v. exec_all o sts file v))
  and_then-Runs st sts w (none, v) h on rest =
      let (open_one, p) = on refl in
      let next = rest v open_one in
      record {
        kept = next.kept ∙ h;
        still = next.still;
        sees = λ r. next.sees r ∙ ap (create_all sts) p;
      }
  and_then-Runs st sts w (some e, v) h on rest = record {
    kept = h;
    still = λ r. ground (arith, r);
    sees = λ r. ground (arith, r);
  }

  exec_all-Runs :
      (sts : List Statement) (w : o.World)
      → o.in_transaction file w ≡ true
      → Runs sts w (exec_all o sts file w)
  unfolding exec_all
  exec_all-Runs [] w open_one = record { kept = refl; still = λ _. open_one; sees = λ _. refl }
  exec_all-Runs (st ∷ sts) w open_one =
      and_then-Runs st sts w (o.exec st file w) (o.exec_lem st file w open_one)
        (o.executed_lem st file w open_one) (λ v on. exec_all-Runs sts v on)

  run_transaction-LeavesIdle :
      (sts : List Statement) (s : Schema) (w : o.World)
      → o.in_transaction file w ≡ true
      → o.schema file w ≡ s
      → o.pending file w ≡ s
      → LeavesIdle o sts file s (run_transaction o sts file w)
  unfolding run_transaction
  run_transaction-LeavesIdle sts s w open_one h p =
      let v = exec_all-Runs sts w open_one in
      rollback-LeavesIdle o sts file s (and_then o (exec_all o sts file w) (o.commit file)) (
        and_then-Leaves o sts file s (exec_all o sts file w) (o.commit file) (v.kept ∙ h) (λ r.
          commit-Leaves o sts file s (exec_all o sts file w).1 (v.still r) (v.kept ∙ h)
            (v.sees r ∙ ap (create_all sts) p)))

  set_up-LeavesIdle :
      (sts : List Statement) (s : Schema) (w : o.World)
      → o.schema file w ≡ s
      → LeavesIdle o sts file s (set_up o sts file w)
  unfolding set_up
  set_up-LeavesIdle sts s w h =
      let v = (o.open_file file w).1 in
      let opened = o.open_lem file w ∙ h in
      let idle = o.open_idle_lem file w in
      let begun = o.begin_lem file v idle ∙ opened in
      and_then-LeavesIdle o sts file s (o.open_file file w)
        (λ u.
          on_exception o (o.close file) (and_then o (o.begin file u) (run_transaction o sts file)))
        opened (λ _ _. idle)
        (λ _.
          close-LeavesIdle o sts file s (and_then o (o.begin file v) (run_transaction o sts file)) (
            and_then-LeavesIdle o sts file s (o.begin file v) (run_transaction o sts file) begun
              (λ e r. o.begin_thrown_lem file v e idle r)
              (λ r.
                let (open_one, p) = o.begun_lem file v idle r in
                run_transaction-LeavesIdle sts s (o.begin file v).1 open_one begun (p ∙ opened))))

module _ (o : Outside) (db_name : Bytes) (conf : ConfigureMap) where
  made-world :
      (path : o.FilePath) (r : (Bool × Option Bytes) × o.World) → (made o path db_name r).1 ≡ r.1
  made-world path ((true, ec), w) = refl
  made-world path ((false, none), w) = refl
  made-world path ((false, some message), w) = refl

  on_data_path-schema :
      (file : Bytes) (path : Exception ⊎ o.FilePath) (w : o.World)
      → o.schema file (on_data_path o db_name path w).1 ≡ o.schema file w
  on_data_path-schema file (inl e) w = refl
  on_data_path-schema file (inr path) w =
      ap (o.schema file) (made-world path (o.create_directories path w))
      ∙ o.create_directories_lem path file w

  database_file-schema :
      (file : Bytes) (w : o.World)
      → o.schema file (database_file o conf db_name w).1 ≡ o.schema file w
  unfolding database_file
  database_file-schema file w =
      on_data_path-schema file
        (o.decode_utf8 (value_or (get (codes "data_path") conf) (codes "./Data"))) w

  -- Where the file of the database is found: if the constructor returns, the objects of its
  -- statements whose names were missing are behind those that were committed; if it throws,
  -- wherever it does, what is committed is as it was; and either way no transaction is left open.
  pub construct-left :
      (sts : List Statement) (w : o.World) (file : Bytes)
      → (database_file o conf db_name w).0 ≡ inr file
      → (o.schema file (construct o db_name sts conf w).1
          ≡ left sts (construct o db_name sts conf w).0 (o.schema file w))
        × (o.in_transaction file (construct o db_name sts conf w).1 ≡ false)
  unfolding construct
  construct-left sts w file found =
      let v = (database_file o conf db_name w).1 in
      let same = ap (λ f. on_file o sts (f, v)) found in
      let v_left = set_up-LeavesIdle o file sts (o.schema file w) v (database_file-schema file w) in
      (
        ap (λ r. o.schema file r.1) same
            ∙ v_left.0
            ∙ ap (λ r. left sts r.0 (o.schema file w)) (sym same),
        ap (λ r. o.in_transaction file r.1) same ∙ v_left.1,
      )

  -- A constructor that returned, run again where the file is found, leaves the schema alone, whether it
  -- returns or throws.
  construct-again :
      (sts : List Statement) (w v : o.World) (file : Bytes)
      → (database_file o conf db_name w).0 ≡ inr file
      → construct o db_name sts conf w ≡ (none, v)
      → (database_file o conf db_name v).0 ≡ inr file
      → o.schema file (construct o db_name sts conf v).1 ≡ o.schema file v
  construct-again sts w v file found returned again =
      let built =
        ap (λ r. o.schema file r.1) (sym returned)
        ∙ (construct-left sts w file found).0
        ∙ ap (λ r. left sts r.0 (o.schema file w)) returned in
      (construct-left sts v file again).0
      ∙ ap (left sts (construct o db_name sts conf v).0) built
      ∙ left-create_all sts (construct o db_name sts conf v).0 (o.schema file w)
      ∙ sym built
