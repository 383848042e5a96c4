-- ===== src/Vfs/MemoryVfs/RoundTrip.antt =====
-- What is written is read.
use bailey_forbes_flinstone.Base.{
  ℕ, ◌-◌, ◌≡◌, ◌≢◌, ◌≤◌, ◌<◌, ◌∙◌, refl, sym, ap, arith, inl, inr, Bool, true, false, Option, none,
  some, List, [], ◌∷◌, ◌++◌, leb, if◌then◌else◌, length, take, take_all, Bool-cases,
}
use bailey_forbes_flinstone.Drivers.{cstr_eq}
use bailey_forbes_flinstone.Drivers.Devfs.Paths.{cstr_eq_sound, cstr_eq_self}
use bailey_forbes_flinstone.Vfs.MemoryVfs.{
  Entry, read, overwrite, add, write, kept_key, key_size, max_entries,
}

-- The texts as before for all but one path, where the text is `buf`.
Written : List Entry → List ℕ → List ℕ → List Entry → Type 0
Written es path buf es' =
    ((size : ℕ) → read es' path size ≡ some (take size buf))
    × ((q : List ℕ) (size : ℕ) → q ≢ path → read es' q size ≡ read es q size)

different : (k q path : List ℕ) → cstr_eq k path ≡ true → q ≢ path → cstr_eq k q ≡ false
different k q path e ne = elim (Bool-cases (cstr_eq k q)) [
  | inl f ↦ absurd (ne (sym (cstr_eq_sound k q f) ∙ cstr_eq_sound k path e))
  | inr f ↦ f
]

-- A read of a list of entries is a read of its first entry and then of the others.
abbrev read_first : Entry → List ℕ → ℕ → Option (List ℕ) → Option (List ℕ)
read_first e q size later =
    if cstr_eq e.key q then (elim e.val [ none ↦ later | some v ↦ some (take size v) ]) else later

Overwritten : List Entry → List ℕ → List ℕ → Option (List Entry) → Type 0
Overwritten es path buf none =
    (e : Entry) (size : ℕ) → read (es ++ (e ∷ [])) path size ≡ read (e ∷ []) path size
Overwritten es path buf (some es') = Written es path buf es'

overwrite-Overwritten :
    (es : List Entry) (path buf : List ℕ) → Overwritten es path buf (overwrite es path buf true)
unfolding Overwritten Written overwrite read
overwrite-Overwritten [] path buf = λ e size. refl
overwrite-Overwritten (e ∷ es) path buf = elim (Bool-cases (cstr_eq e.key path)) [
  | inl h ↦
      rw h
        ((λ size. rw h refl), λ q size ne. let other = different e.key q path h ne in rw other refl)
  | inr h ↦ rw h (behind h (overwrite es path buf true) (overwrite-Overwritten es path buf))
]
  where
    behind :
        cstr_eq e.key path ≡ false
        → (o : Option (List Entry)) → Overwritten es path buf o
        → Overwritten (e ∷ es) path buf (elim o [ none ↦ none | some es' ↦ some (e ∷ es') ])
    behind h none f = λ x size. rw h (f x size)
    behind h (some es') (there, others) =
        ((λ size. rw h (there size)), λ q size ne. ap (read_first e q size) (others q size ne))

-- An entry with another key at the end.
read_append_other :
    (es : List Entry) (e : Entry) (q : List ℕ) (size : ℕ)
    → cstr_eq e.key q ≡ false
    → read (es ++ (e ∷ [])) q size ≡ read es q size
unfolding read
read_append_other [] e q size h = rw h refl
read_append_other (x ∷ es) e q size h = ap (read_first x q size) (read_append_other es e q size h)

-- How a write with memory ends: done, or refused in a full table without an entry for the path.
abbrev pub Wrote : List Entry → List ℕ → List ℕ → Bool × List Entry → Type 0
Wrote es path buf (true, es') =
    ((size : ℕ) → read es' path size ≡ some (take size buf))
    × ((q : List ℕ) (size : ℕ) → q ≢ path → read es' q size ≡ read es q size)
Wrote es path buf (false, es') = (es' ≡ es) × (max_entries ≤ length es)

-- `mem_write` of a path of at most 127 bytes, with memory for the text, ends in one of two ways: every
-- read of the path gives as much of the text as the reader's buffer holds, and every read of another
-- path gives what it gave before; or all 64 entries are in use and nothing changes.
pub write-Wrote :
    (es : List Entry) (path buf : List ℕ)
    → length path < key_size
    → Wrote es path buf (write es path buf true)
write-Wrote es path buf short =
    unfold write in by_overwrite (overwrite es path buf true) (overwrite-Overwritten es path buf)
  where
    entry : Entry
    entry = record { key = path; val = some buf }

    added : Overwritten es path buf none → Wrote es path buf (add es path buf true)
    added f = elim (Bool-cases (leb max_entries (length es))) [
      | inl e ↦ unfold add in rw e (refl, ground arith)
      | inr e ↦
          let same : kept_key path ≡ path =
            unfold kept_key in take_all (key_size - 1) path (omega arith) in
          unfold add in rw (e, same) (at_path f, at_others)
    ]
      where
        at_path :
            Overwritten es path buf none
            → (size : ℕ) → read (es ++ (entry ∷ [])) path size ≡ some (take size buf)
        at_path f size =
            let last : read (es ++ (entry ∷ [])) path size ≡ read (entry ∷ []) path size =
              unfold Overwritten in f entry size in
            last ∙ (unfold read in rw (cstr_eq_self path) refl)

        at_others :
            (q : List ℕ) (size : ℕ) → q ≢ path → read (es ++ (entry ∷ [])) q size ≡ read es q size
        at_others q size ne =
            read_append_other es entry q size (different path q path (cstr_eq_self path) ne)

    by_overwrite :
        (o : Option (List Entry))
        → Overwritten es path buf o
        → Wrote es path buf (elim o [ none ↦ add es path buf true | some es' ↦ (true, es') ])
    by_overwrite none f = added f
    by_overwrite (some es') w = unfold Written in unfold Overwritten in w
