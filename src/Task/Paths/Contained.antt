-- ===== src/Task/Paths/Contained.antt =====
-- What the path checks let through stays inside the directory it belongs to.
use etcd_space_inspector.Prelude.{
  ◌≡◌, inl, inr, refl, sym, ◌∙◌, subst, true, false, ◌||◌, List, [], ◌∷◌, ◌++◌, append_assoc, All,
  Bool-cases, arith,
}
use etcd_space_inspector.Prelude.Bytes.{Bytes, text, same, same-iff_eq}
use etcd_space_inspector.Prelude.Strings.{split, split-plain}
use etcd_space_inspector.Task.Paths.{
  up, here, valid_id, parent, enter, join, rel, leads_up, resolved, tasks_dir, task_dir,
  within_root, resolve_task_relative, one_part, remove_task_path,
}

-- A part of a clean path.
abbrev pub IsPart : Bytes → Type 0
IsPart p = (same p [] ≡ false) × (same p here ≡ false) × (same p up ≡ false)

-- Where Rel does not lead up, the target lies below its base.
rel-below :
    (dir target : List Bytes) → leads_up (rel dir target) ≡ false → dir ++ rel dir target ≡ target
unfolding rel same
rel-below [] target h = refl
rel-below (p ∷ ps) [] h = absurd (ground arith)
rel-below (p ∷ ps) (t ∷ ts) h = ground (arith, rel-below ps ts, same-iff_eq p t)

parent-All : (dir : List Bytes) → All IsPart dir → All IsPart (parent dir)
parent-All [] h = tt
parent-All (p ∷ []) h = tt
parent-All (p ∷ q ∷ ps) (h, k) = (h, parent-All (q ∷ ps) k)

All-append : (l m : List Bytes) → All IsPart l → All IsPart m → All IsPart (l ++ m)
All-append [] m a b = b
All-append (x ∷ l) m (h, a) b = (h, All-append l m a b)

All-right : (l m : List Bytes) → All IsPart (l ++ m) → All IsPart m
All-right [] m a = a
All-right (x ∷ l) m (h, a) = All-right l m a

enter-All : (dir : List Bytes) (p : Bytes) → All IsPart dir → All IsPart (enter dir p)
unfolding enter
enter-All dir p a = elim (Bool-cases (same p [] || same p here)) [
  | inl e ↦ rw e a
  | inr e ↦ rw e (elim (Bool-cases (same p up)) [
    | inl u ↦ rw u (parent-All dir a)
    | inr u ↦ rw u (All-append dir (p ∷ []) a ((ground arith, ground arith, u), tt))
  ])
]

join-All : (dir ps : List Bytes) → All IsPart dir → All IsPart (join dir ps)
unfolding join
join-All dir [] a = a
join-All dir (p ∷ ps) a = join-All (enter dir p) ps (enter-All dir p a)

module _ (data_dir : List Bytes) where
  -- A valid id names a directory right below the tasks.
  pub task_dir_valid :
      (id : Bytes) → valid_id id ≡ true → task_dir data_dir id ≡ data_dir ++ text "tasks" ∷ id ∷ []
  unfolding task_dir valid_id join enter
  task_dir_valid id h =
      rw (split-plain b'/' id (ground arith))
        (ground (arith, append_assoc data_dir (text "tasks" ∷ []) (id ∷ [])))

  -- Below the directory of the task, by parts that do not lead up.
  pub record Below (id : Bytes) (target : List Bytes) : Type 0 where
    pub rest : List Bytes
    pub parts : All IsPart rest
    pub is_target : target ≡ data_dir ++ text "tasks" ∷ id ∷ rest

  below :
      (id : Bytes) (target : List Bytes)
      → All IsPart target
      → leads_up (rel (data_dir ++ text "tasks" ∷ id ∷ []) target) ≡ false
      → Below id target
  below id target a h =
      let root = data_dir ++ text "tasks" ∷ id ∷ [] in
      let e = rel-below root target h in
      record {
        rest = rel root target;
        parts = All-right root (rel root target) (subst (All IsPart) (sym e) a);
        is_target = sym e ∙ append_assoc data_dir (text "tasks" ∷ id ∷ []) (rel root target);
      }

  within_root-Below :
      (id : Bytes) (target t : List Bytes)
      → All IsPart target
      → within_root (data_dir ++ text "tasks" ∷ id ∷ []) target ≡ resolved t
      → Below id t
  within_root-Below id target t a h =
      elim (Bool-cases (leads_up (rel (data_dir ++ text "tasks" ∷ id ∷ []) target))) [
        | inl e ↦ absurd (ground arith)
        | inr e ↦
            let same_target : target ≡ t = ground arith in
            subst (Below id) same_target (below id target a e)
      ]

  root-All :
      (id : Bytes)
      → All IsPart data_dir
      → valid_id id ≡ true
      → All IsPart (data_dir ++ text "tasks" ∷ id ∷ [])
  unfolding valid_id same
  root-All id clean e =
      All-append data_dir (text "tasks" ∷ id ∷ []) clean
        ((refl, refl, refl), ((ground arith, ground arith, ground arith), tt))

  accepted :
      (id relative : Bytes) (t : List Bytes)
      → resolve_task_relative data_dir id relative ≡ resolved t
      → within_root (task_dir data_dir id) (join (task_dir data_dir id) (split b'/' relative))
        ≡ resolved t
  unfolding resolve_task_relative
  accepted id relative t h = ground arith

  -- A path that ResolveTaskRelative accepts lies in the directory of its task, whatever `..` the
  -- relative path has, and the id is valid.
  pub resolve_task_relative-Below :
      (id relative : Bytes) (t : List Bytes)
      → All IsPart data_dir
      → resolve_task_relative data_dir id relative ≡ resolved t
      → (valid_id id ≡ true) × Below id t
  unfolding resolve_task_relative
  resolve_task_relative-Below id relative t clean h = elim (Bool-cases (valid_id id)) [
    | inr e ↦ absurd (ground arith)
    | inl e ↦
        let root = data_dir ++ text "tasks" ∷ id ∷ [] in
        let inside =
          subst (λ (d : List Bytes). within_root d (join d (split b'/' relative)) ≡ resolved t)
            (task_dir_valid id e) (accepted id relative t h) in
        (
          e,
          within_root-Below id (join root (split b'/' relative)) t
              (join-All root (split b'/' relative) (root-All id clean e)) inside,
        )
  ]

  one_part_below :
      (target parts t : List Bytes)
      → rel (tasks_dir data_dir) target ≡ parts
      → one_part target parts ≡ resolved t
      → (p : Bytes) × (valid_id p ≡ true) × (t ≡ data_dir ++ text "tasks" ∷ p ∷ [])
  one_part_below target [] t e h = absurd (ground arith)
  one_part_below target (p ∷ q ∷ ps) t e h = absurd (ground arith)
  one_part_below target (p ∷ []) t e h = (
    p,
    ground arith,
    ground (
      arith,
      rel-below (tasks_dir data_dir) target,
      append_assoc data_dir (text "tasks" ∷ []) (p ∷ []),
    ),
  )

  -- A directory that Delete removes is the one of a task, right below the tasks.
  pub remove_task_path-Below :
      (id : Bytes) (t : List Bytes)
      → remove_task_path data_dir id ≡ resolved t
      → (p : Bytes) × (valid_id p ≡ true) × (t ≡ data_dir ++ text "tasks" ∷ p ∷ [])
  unfolding remove_task_path
  remove_task_path-Below id t h =
      one_part_below (task_dir data_dir id) (rel (tasks_dir data_dir) (task_dir data_dir id)) t refl
        h
