-- ===== src/Drivers/Devfs/Files.antt =====
-- What an open device file refers to.
use bailey_forbes_flinstone.Base.{
  ℕ, ◌+◌, ◌-◌, ◌≡◌, ◌≢◌, ◌<◌, ◌∙◌, refl, sym, ap, subst, arith, Option, none, some, List, ==_self,
}
use bailey_forbes_flinstone.Drivers.Table.{Table, find}
use bailey_forbes_flinstone.Drivers.Devfs.{Node, File, has_path, open_path, unregister}
use bailey_forbes_flinstone.Drivers.Devfs.Paths.{IsDevfs, Found, find-Found, unregister-eq}

module _ {W : Type 0} where
  -- The node that an open file uses.
  abbrev pub NodeOf : Table (Node W) → Option File → Node W → Type 0
  NodeOf t none n = ⊥
  NodeOf t (some file) n = elim file.node [ none ↦ ⊥ | some i ↦ t.entry i ≡ n ]

  open_path-eq :
      (t : Table (Node W)) (path : List ℕ) (flags i : ℕ)
      → find (has_path path) t ≡ some i
      → open_path t path flags ≡ some (record { node = some i; pos = 0; flags = flags })
  open_path-eq t path flags i g =
      unfold open_path in
      ap
        (λ (o : Option ℕ). elim o as (λ _. Option File) [
          | none ↦ none
          | some j ↦ some (record { node = some j; pos = 0; flags = flags })
        ])
        g

  -- On a table whose paths are different, a file that `fl_devfs_open` opens uses the node of its
  -- path. When the path is then unregistered and its node was not the last of the table, the file,
  -- which is still open, uses the last node, that of another path.
  pub open_path-unregister :
      (t : Table (Node W)) (path : List ℕ) (flags i : ℕ)
      → IsDevfs t
      → find (has_path path) t ≡ some i
      → i + 1 < t.count
      → let file = open_path t path flags in
        NodeOf t file (t.entry i)
        × ((t.entry i).path ≡ path)
        × NodeOf (unregister t path) file (t.entry (t.count - 1))
        × ((t.entry (t.count - 1)).path ≢ path)
  open_path-unregister t path flags i ok g inner =
      let (l, same) = subst (Found t path) g (find-Found t path) in
      let opened = open_path-eq t path flags i g in
      let left = unregister-eq t path (some i) g in
      (
        subst (λ o. NodeOf t o (t.entry i)) (sym opened) refl,
        same,
        subst (λ o. NodeOf (unregister t path) o (t.entry (t.count - 1))) (sym opened)
            (ap (λ (x : Table (Node W)). x.entry i) left ∙ (rw (==_self i) refl)),
        λ e. ok.distinct (t.count - 1) i (omega arith) l (λ z. omega arith) (e ∙ sym same),
      )
