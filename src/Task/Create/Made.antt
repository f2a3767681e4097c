-- ===== src/Task/Create/Made.antt =====
-- What the creation of a task leaves behind.
use etcd_space_inspector.Prelude.{
  ◌≡◌, ◌≢◌, ◌⊎◌, inl, inr, refl, ap, ◌∙◌, Bool, true, false, ◌&&◌, ◌||◌, not, Option, none, some,
  [], ltb, ◌==◌, if◌then◌else◌, Bool-cases, arith,
}
use etcd_space_inspector.Prelude.Bytes.{Bytes, text, same, same-iff_eq, same_refl}
use etcd_space_inspector.Task.Manifest.{Manifest, CreateRequest}
use etcd_space_inspector.Task.Store.{
  ServiceError, no_directory, write_failed, import_failed, request_failed, readable, Dir, Dirs, put,
  Result, ok, failed, write_fails, write_in, write_manifest, manifest_of,
}
use etcd_space_inspector.Task.Create.{
  Setting, empty_dir, trim_space, is_input, in_new_dir, settle, made, dir_or_empty, give_up,
  new_task, import_copy, create, importing_task, the_request, with_request, import_later,
  prepare_import,
}
use etcd_space_inspector.Ingest.{Copy, copied, refused, Metadata}

-- The new id is not in use, and what has to be removed can be.
pub record Fresh {F : Type 0} (set : Setting) (dirs : Dirs F) : Type 0 where
  pub unused : (id : Bytes) → set.new_id ≡ some id → dirs id ≡ none
  pub removal : set.removal_fails ≡ false

-- The new directory with its manifest, beside all that was there.
pub record Added {F : Type 0} (set : Setting) (item : Manifest F) (dirs after : Dirs F)
    : Type 0 where
  pub id : set.new_id ≡ some item.id
  pub manifest : manifest_of (after item.id) ≡ some (readable item)
  pub others : (x : Bytes) → x ≢ item.id → after x ≡ dirs x

-- The making of the new directories has failed half-way, and an empty directory is left.
pub record HalfMade {F : Type 0} (set : Setting) (e : ServiceError) (dirs after : Dirs F)
    : Type 0 where
  pub id : Bytes
  pub new : set.new_id ≡ some id
  pub fails : set.source_fails ≡ true
  pub leaves : set.leaves_directory ≡ true
  pub error : e ≡ no_directory
  pub left : after ≡ put id (some empty_dir) dirs

-- A failed creation leaves every directory as it was, or its own one half made; a good one adds the
-- one of `item`.
abbrev pub Made :
    {F : Type 0} → Setting → (Bytes → Manifest F) → Dirs F → Result (Manifest F) × Dirs F → Type 0
Made set item dirs (failed e, after) = ((x : Bytes) → after x ≡ dirs x) ⊎ HalfMade set e dirs after
Made set item dirs (ok t, after) = (t ≡ item t.id) × Added set t dirs after

put-other :
    {A : Type 0} (id : Bytes) (v : A) (f : Bytes → A) (x : Bytes) → x ≢ id → put id v f x ≡ f x
put-other id v f x h = ground (arith, same-iff_eq x id)

put-same : {A : Type 0} (id : Bytes) (v : A) (f : Bytes → A) → put id v f id ≡ v
put-same id v f = ground (arith, same_refl id)

Made-if :
    {F : Type 0} (set : Setting) (item : Bytes → Manifest F) (dirs : Dirs F) (b : Bool)
    (x y : Result (Manifest F) × Dirs F)
    → (b ≡ true → Made set item dirs x)
    → (b ≡ false → Made set item dirs y)
    → Made set item dirs (if b then x else y)
Made-if set item dirs true x y h k = h refl
Made-if set item dirs false x y h k = k refl

module _ {F : Type 0} (set : Setting) (dirs : Dirs F) (fresh : Fresh set dirs) where
  -- The removal of a new directory.
  undone :
      (id : Bytes) (e : ServiceError) (item : Bytes → Manifest F)
      → set.new_id ≡ some id
      → (now : Dirs F) → ((x : Bytes) → x ≢ id → now x ≡ dirs x)
      → Made set item dirs (give_up set id e now)
  undone id e item h now k = inl λ x. elim (Bool-cases (same x id)) [
    | inl q ↦ ground (arith, same-iff_eq x id, fresh.unused id, fresh.removal)
    | inr q ↦ ground (arith, same-iff_eq x id, k x, fresh.removal)
  ]

  -- The write of the manifest.
  settled :
      (item : Bytes → Manifest F) (id : Bytes) (d : Dir F) (now : Dirs F)
      → set.new_id ≡ some id
      → (item id).id ≡ id
      → now id ≡ some d
      → ((x : Bytes) → x ≢ id → now x ≡ dirs x)
      → (fails : Bool)
      → Made set item dirs (settle set (item id) (write_in fails (item id) (some d) now))
  settled item id d now h e n k true =
      undone (item id).id write_failed item (ground arith) now (λ x q. k x (ground arith))
  settled item id d now h e n k false = (
    ground arith,
    record {
      id = ground arith;
      manifest = ground (arith, same_refl (item id).id);
      others = λ x q. put-other (item id).id _ now x q ∙ k x (ground arith);
    },
  )

  wrote :
      (item : Bytes → Manifest F) (id : Bytes) (d : Dir F) (now : Dirs F)
      → set.new_id ≡ some id
      → (item id).id ≡ id
      → now id ≡ some d
      → ((x : Bytes) → x ≢ id → now x ≡ dirs x)
      → Made set item dirs (settle set (item id) (write_manifest set.faults (item id) now))
  unfolding write_manifest
  wrote item id d now h e n k =
      let at : now (item id).id ≡ some d = ap now e ∙ n in
      rw at (settled item id d now h e n k (write_fails set.faults))

  -- The first of the new directories cannot be made.
  half_made :
      (id : Bytes)
      → set.new_id ≡ some id
      → (item : Bytes → Manifest F) → set.source_fails ≡ true
      → (b : Bool) → set.leaves_directory ≡ b
      → Made set item dirs (failed no_directory, if b then made id dirs else dirs)
  half_made id e item f false h = inl (λ x. refl)
  half_made id e item f true h = inr (record {
    id = id;
    new = e;
    fails = f;
    leaves = h;
    error = refl;
    left = ap (λ (o : Option (Dir F)). put id (some (dir_or_empty o)) dirs) (fresh.unused id e);
  })

  -- The directories, for any way to go on.
  in_new_dir-Made :
      (item : Bytes → Manifest F) (rest : Bytes → Dirs F → Result (Manifest F) × Dirs F)
      → ((id : Bytes) → set.new_id ≡ some id → Made set item dirs (rest id (made id dirs)))
      → (o : Option Bytes) → set.new_id ≡ o
      → Made set item dirs (in_new_dir set rest o dirs)
  in_new_dir-Made item rest h none e = inl (λ x. refl)
  in_new_dir-Made item rest h (some id) e =
      Made-if set item dirs set.source_fails _ _
        (λ a. half_made id e item a set.leaves_directory refl)
        (λ a.
          Made-if set item dirs (set.exports_fails || set.logs_fails) _ _
            (λ b. undone id no_directory item e (made id dirs) (λ x q. put-other id _ dirs x q))
            (λ b. h id e))

module _ {F : Type 0} (zero : F) (set : Setting) (request : CreateRequest) (dirs : Dirs F)
    (fresh : Fresh set dirs) where
  new_dir : (id : Bytes) → made id dirs id ≡ some (dir_or_empty (dirs id))
  new_dir id = put-same id _ dirs

  -- The task that Create makes of what was copied.
  abbrev pub copied_task : Copy → Bytes → Manifest F
  copied_task (refused e) id =
      new_task zero set request id (record { size = 0; sha256 = []; mod_time = 0 })
  copied_task (copied meta) id = new_task zero set request id meta

  new_task-id : (id : Bytes) (meta : Metadata) → (new_task zero set request id meta).id ≡ id
  unfolding new_task
  new_task-id id meta = refl

  importing_task-id : (id : Bytes) → (importing_task zero set request id).id ≡ id
  unfolding importing_task
  importing_task-id id = refl

  import_copy-Made :
      (c : Copy) (id : Bytes)
      → set.new_id ≡ some id
      → Made set (copied_task c) dirs (import_copy zero set request c id (made id dirs))
  import_copy-Made (refused x) id e =
      undone set dirs fresh id (import_failed x) (copied_task (refused x)) e (made id dirs)
        (λ y q. put-other id _ dirs y q)
  import_copy-Made (copied meta) id e =
      wrote set dirs fresh (copied_task (copied meta)) id _ (made id dirs) e (new_task-id id meta)
        (new_dir id) (λ y q. put-other id _ dirs y q)

  -- Where the new id is free and what has to be removed can be: a Create that fails leaves the
  -- directories as they were, except that it leaves an empty directory of the new id where the
  -- making of the first directory fails after that of its parent; and one that succeeds adds one
  -- directory, with a manifest of the request and of the copied file that can be read, and changes
  -- no other.
  pub create-Made : Made set (copied_task set.copy) dirs (create zero set request dirs)
  unfolding create
  create-Made =
      Made-if set (copied_task set.copy) dirs (same (trim_space request.name) []) _ _
        (λ h. inl (λ x. refl))
        (λ h.
          Made-if set (copied_task set.copy) dirs (not (is_input request.input_type)) _ _
            (λ k. inl (λ x. refl))
            (λ k.
              in_new_dir-Made set dirs fresh (copied_task set.copy)
                (import_copy zero set request set.copy) (import_copy-Made set.copy) set.new_id
                refl))

  import_later-Made :
      (id : Bytes)
      → set.new_id ≡ some id
      → Made set
          (importing_task zero set request)
          dirs
          (import_later zero set request id (made id dirs))
  import_later-Made id e =
      Made-if set (importing_task zero set request) dirs set.request_fails _ _
        (λ h.
          undone set dirs fresh id request_failed (importing_task zero set request) e (made id dirs)
            (λ y q. put-other id _ dirs y q))
        (λ h.
          wrote set dirs fresh (importing_task zero set request) id
            (record (dir_or_empty (dirs id)) { request = some (the_request zero set request) })
            (put id (with_request zero set request (made id dirs id)) (made id dirs)) e
            (importing_task-id id)
            (put-same id _ (made id dirs) ∙ ap (with_request zero set request) (new_dir id))
            (λ y q. put-other id _ (made id dirs) y q ∙ put-other id _ dirs y q))

  -- So too for PrepareImport, whose manifest says that the task is being imported.
  pub prepare_import-Made :
      Made set (importing_task zero set request) dirs (prepare_import zero set request dirs)
  unfolding prepare_import
  prepare_import-Made =
      let item : Bytes → Manifest F = importing_task zero set request in
      Made-if set item dirs set.is_cancelled _ _ (λ h. inl (λ x. refl))
        (λ h.
          Made-if set item dirs (same (trim_space request.name) []) _ _ (λ k. inl (λ x. refl))
            (λ k.
              Made-if set item dirs
                (not (same request.input_type (text "snapshot"))
                  && not (same request.input_type (text "raw-db")))
                _ _ (λ k. inl (λ x. refl))
                (λ k.
                  Made-if set item dirs (set.lstat_fails || not set.is_regular) _ _
                    (λ k. inl (λ x. refl))
                    (λ k.
                      Made-if set item dirs
                        (request.max_input_bytes == 0 || ltb request.max_input_bytes set.size) _ _
                        (λ k. inl (λ x. refl))
                        (λ k.
                          in_new_dir-Made set dirs fresh item (import_later zero set request)
                            import_later-Made set.new_id refl)))))
