-- ===== src/Drivers/Devfs/Paths.antt =====
-- The table of device files is a finite map from paths to nodes.
use bailey_forbes_flinstone.Base.{
  ℕ, ◌-◌, ◌≡◌, ◌≢◌, ◌≤◌, ◌<◌, ◌⊎◌, ◌↔◌, ◌∙◌, refl, sym, ap, ap₂, subst, arith, inl, inr, true,
  Option, none, some, List, [], ◌∷◌, ◌==◌, leb, length, Bool-cases, Option-cases, ==→eq, ==_self,
}
use mathlib.Core.Bool.{false≢true}
use bailey_forbes_flinstone.Drivers.{cstr_eq}
use bailey_forbes_flinstone.Drivers.Table.{
  Table, append_entry, remove_entry, find, Finds, find-Finds, AllEntries, AllEntries-append,
  AllEntries-remove, Pairwise, Pairwise-append, Pairwise-remove, Occurs, Occurs-append,
  Occurs-append_split, Occurs-remove, Occurs-remove_other,
}
use bailey_forbes_flinstone.Drivers.Devfs.{
  Node, Ops, Registered, accepted, refused, panics, has_path, register, unregister, max_devfs,
  path_size,
}

pub cstr_eq_sound : (a b : List ℕ) → cstr_eq a b ≡ true → a ≡ b
unfolding cstr_eq
cstr_eq_sound [] [] h = refl
cstr_eq_sound [] (b ∷ bs) h = absurd (false≢true h)
cstr_eq_sound (a ∷ xs) [] h = absurd (false≢true h)
cstr_eq_sound (a ∷ xs) (b ∷ bs) h = elim (Bool-cases (a == b)) [
  | inl e ↦ ap₂ ◌∷◌ (==→eq a b e) (cstr_eq_sound xs bs (ground arith))
  | inr e ↦ absurd (ground arith)
]

pub cstr_eq_self : (a : List ℕ) → cstr_eq a a ≡ true
unfolding cstr_eq
cstr_eq_self [] = refl
cstr_eq_self (a ∷ xs) = rw (==_self a) (cstr_eq_self xs)

module _ {W : Type 0} where
  -- The paths are different and fit in their field.
  pub record IsDevfs (t : Table (Node W)) : Type 0 where
    pub distinct : Pairwise (λ a b. a.path ≢ b.path) t
    pub short : AllEntries (λ n. length n.path < path_size) t
    pub fits : t.count ≤ max_devfs

  -- The node of a path.
  abbrev pub Holds : Table (Node W) → List ℕ → Node W → Type 0
  Holds t path n = Occurs n t × (n.path ≡ path)

  -- No node has the path.
  abbrev pub Lacks : Table (Node W) → List ℕ → Type 0
  Lacks t path = AllEntries (λ n. n.path ≢ path) t

  abbrev pub Found : Table (Node W) → List ℕ → Option ℕ → Type 0
  Found t path none = Lacks t path
  Found t path (some i) = (i < t.count) × ((t.entry i).path ≡ path)

  pub find-Found : (t : Table (Node W)) (path : List ℕ) → Found t path (find (has_path path) t)
  find-Found t path = convert (find (has_path path) t) (find-Finds (has_path path) t)
    where
      convert : (o : Option ℕ) → Finds (has_path path) t.entry t.count 0 o → Found t path o
      convert none f = λ i l e.
          false≢true
            (sym (f i (omega arith) (omega arith)) ∙ ap (λ p. cstr_eq p path) e ∙ cstr_eq_self path)
      convert (some i) (a, b, c, d) = ((omega arith), cstr_eq_sound (t.entry i).path path c)

  -- What `fl_devfs_register` returns and leaves.
  abbrev pub Registers : Table (Node W) → Node W → Registered × Table (Node W) → Type 0
  Registers t n (accepted, t') =
      (t.count < max_devfs)
      × IsDevfs t'
      × Lacks t n.path
      × Holds t' n.path n
      × ((m : Node W) → Occurs m t → Occurs m t')
      × ((m : Node W) → Occurs m t' → Occurs m t ⊎ (m ≡ n))
  Registers t n (refused, t') =
      (t' ≡ t)
      × (t.count < max_devfs)
      × ((path_size ≤ length n.path) ⊎ ((m : Node W) × Holds t n.path m))
  Registers t n (panics, t') = (t' ≡ t) × (t.count ≡ max_devfs)

  -- On a table whose paths are different and fit, `fl_devfs_register` panics exactly in a full
  -- table, whatever the path, returns -1 only for a path that is too long or is there already, and
  -- in both cases changes nothing; otherwise the path fits and is new and it adds the node, after which the table has it at its path, has the nodes from before
  -- and no others, and its paths are again different and fit.
  pub register-Registers :
      (t : Table (Node W)) (path : List ℕ) (class_id dev : ℕ) (ops : Ops W)
      → IsDevfs t
      → Registers t
          (record { path = path; class_id = class_id; dev = dev; ops = ops })
          (register t path class_id dev ops)
  register-Registers t path class_id dev ops ok = elim (Bool-cases (leb max_devfs t.count)) [
    | inl e ↦ unfold register in rw e (refl, ground (arith, ok.fits))
    | inr e ↦ elim (Bool-cases (leb path_size (length path))) [
      | inl f ↦ unfold register in rw (e, f) (refl, (ground arith), inl (ground arith))
      | inr f ↦ elim (Option-cases (find (has_path path) t)) [
        | inl g ↦
            let lacks = subst (Found t path) g (find-Found t path) in
            unfold register in rw (e, f, g) (added (ground arith) (ground arith) lacks)
        | inr (i, g) ↦
            let (l, same) = subst (Found t path) g (find-Found t path) in
            unfold register in
            rw (e, f, g) (refl, (ground arith), inr (t.entry i, ((i, l, refl), same)))
      ]
    ]
  ]
    where
      node : Node W
      node = record { path = path; class_id = class_id; dev = dev; ops = ops }

      added :
          t.count < max_devfs
          → length path < path_size
          → Lacks t path
          → Registers t node (accepted, append_entry t node)
      added room short lacks = (
        room,
        record {
          distinct =
              Pairwise-append (λ a b. a.path ≢ b.path) t node ok.distinct
                (λ i l. ((λ z. lacks i l (sym z)), lacks i l));
          short = AllEntries-append (λ n. length n.path < path_size) t node ok.short short;
          fits = omega arith;
        },
        lacks,
        ((t.count, (omega arith), rw (==_self t.count) refl), refl),
        Occurs-append t node,
        Occurs-append_split t node,
      )

  remove-IsDevfs :
      (t : Table (Node W)) (i : ℕ) → i < t.count → IsDevfs t → IsDevfs (remove_entry t i)
  remove-IsDevfs t i l ok = record {
    distinct = Pairwise-remove (λ a b. a.path ≢ b.path) t i l ok.distinct;
    short = AllEntries-remove (λ n. length n.path < path_size) t i l ok.short;
    fits = omega (arith, ok.fits);
  }

  -- The removed node was the only one with its path.
  remove-Lacks :
      (t : Table (Node W)) (i : ℕ)
      → i < t.count
      → IsDevfs t
      → Lacks (remove_entry t i) (t.entry i).path
  remove-Lacks t i l ok j b = elim (Bool-cases (i == j)) [
    | inl s ↦ rw s (ok.distinct (t.count - 1) i (omega arith) l (λ z. ground arith))
    | inr s ↦ rw s (ok.distinct j i (omega arith) l (λ z. ground arith))
  ]

  pub unregister-eq :
      (t : Table (Node W)) (path : List ℕ) (o : Option ℕ)
      → find (has_path path) t ≡ o
      → unregister t path ≡ elim o [ none ↦ t | some i ↦ remove_entry t i ]
  unregister-eq t path o g =
      unfold unregister in
      ap
        (λ (x : Option ℕ). elim x as (λ _. Table (Node W)) [ none ↦ t | some i ↦ remove_entry t i ])
        g

  -- What is left after the removal of a path.
  abbrev pub Unregistered : Table (Node W) → List ℕ → Table (Node W) → Type 0
  Unregistered t path t' =
      IsDevfs t' × Lacks t' path × ((n : Node W) → n.path ≢ path → Occurs n t ↔ Occurs n t')

  -- On such a table `fl_devfs_unregister` leaves no node with the path and every node with another
  -- path, adds none, and the paths are again different and fit.
  pub unregister_lem :
      (t : Table (Node W)) (path : List ℕ) → IsDevfs t → Unregistered t path (unregister t path)
  unregister_lem t path ok = elim (Option-cases (find (has_path path) t)) [
    | inl g ↦
        let lacks = subst (Found t path) g (find-Found t path) in
        subst (Unregistered t path) (sym (unregister-eq t path none g))
          (ok, lacks, λ n ne. ((λ o. o), (λ o. o)))
    | inr (i, g) ↦
        let (l, same) = subst (Found t path) g (find-Found t path) in
        subst (Unregistered t path) (sym (unregister-eq t path (some i) g)) (
          remove-IsDevfs t i l ok,
          subst (Lacks (remove_entry t i)) same (remove-Lacks t i l ok),
          λ n ne. (
            Occurs-remove_other t i n l (λ z. ne (sym (ap (λ m. m.path) z) ∙ same)),
            Occurs-remove t i n l,
          ),
        )
  ]
