-- ===== src/Attr/Cache/Verify/Keeps.antt =====
-- An update of a cache that `verify` lets pass gives one that it lets pass.
use termite.Base.{
  ℕ, ◌≡◌, ◌≢◌, refl, ap, subst, inl, inr, Bytes, Bool, true, false, not, ◌&&◌, ◌||◌, [], ◌∷◌, some,
  ◌==◌, nat_eq, nat_iff, bytes_eq, bytes_iff, Dict, lookup, insert, erase, NodupKeys,
  insert-NodupKeys, lookup-insert, is_empty, arith, clean, Bool-cases, Option-cases,
}
use termite.Paths.{split_path}
use termite.Attr.FileAttr.{FileAttr, deletion, merge, type_bits}
use termite.Attr.Cache.{Cache, mode_of, list_names, list_in_parent, update_listed, update_one}
use termite.Attr.Cache.Update.{entry_after, dir_after, update_one-lookup}
use termite.Attr.Cache.Linked.{IsClean, IsFit}
use termite.Attr.Cache.Preserve.{update_one_discarded, update_one-IsLinked}
use termite.Attr.Cache.Verify.{is_plain, check_names, check_children, verify}
use termite.Attr.Cache.Verify.Sound.{both, all, verify-IsLinked, IsLinked-verify, verify-rest}
use termite.Attr.Cache.Verify.Stored.{IsIdle, store_attr-IsIdle, store_attr-NodupKeys}

-- A name that may stand in a listing, with a mode.
check_first :
    (b : Bytes) (v : ℕ) (h : Bool)
    → is_plain b ≡ true
    → is_empty b ≡ false
    → v ≢ 0
    → h ≡ true
    → (is_plain b && not (is_empty b) && not (v == 0) && h) ≡ true
check_first b v h p e n q = ground (arith, nat_iff v 0)

check_names-insert :
    (b : Bytes) (v : ℕ) (m : Dict Bytes ℕ)
    → is_plain b ≡ true
    → is_empty b ≡ false
    → v ≢ 0
    → check_names m ≡ true
    → check_names (insert b v m) ≡ true
unfolding check_names insert
check_names-insert b v [] p e n h = check_first b v true p e n refl
check_names-insert b v ((j, w) ∷ m) p e n h =
    let (first, rest) = both _ _ h in
    elim (Bool-cases (b == j)) [
      | inl same ↦ rw same (check_first b v _ p e n rest)
      | inr other ↦ rw other (all _ _ first (check_names-insert b v m p e n rest))
    ]

check_names-erase :
    (b : Bytes) (m : Dict Bytes ℕ) → check_names m ≡ true → check_names (erase b m) ≡ true
unfolding check_names erase
check_names-erase b [] h = refl
check_names-erase b ((j, w) ∷ m) h =
    let (first, rest) = both _ _ h in
    elim (Bool-cases (b == j)) [
      | inl same ↦ rw same (check_names-erase b m rest)
      | inr other ↦ rw other (all _ _ first (check_names-erase b m rest))
    ]

merge-check_children :
    (old r a : FileAttr)
    → merge old r ≡ some a
    → check_children old ≡ true
    → check_children r ≡ true
    → check_children a ≡ true
unfolding merge check_children
merge-check_children old r a e p q = ground (arith, ap check_children)

module _ (c c' : Cache) (r d : FileAttr) (v : verify true c ≡ true) (f : IsFit c r)
    (u : update_one c r ≡ some c')
    (cached : lookup (split_path r.path).0 c.attributes ≡ some d) where
  update_listed-IsIdle : IsIdle c'
  unfolding update_one list_in_parent update_listed
  update_listed-IsIdle = elim (Option-cases d.names) [
    | inl bare ↦ absurd (ground arith)
    | inr (m, full) ↦
        let dir = (split_path r.path).0 in
        let d' = record d { names = some (list_names r (split_path r.path).1 m) } in
        store_attr-IsIdle (record c { attributes = insert dir d' c.attributes }) c' r
          (λ k b e. elim (Bool-cases (k == dir)) [
            | inl same ↦ rw ((bytes_iff k dir).0 same) ((verify-rest c dir d v cached).1)
            | inr other ↦
                (verify-rest c k b v (ground (arith, lookup-insert k dir d' c.attributes))).1
          ])
          (ground arith)
  ]

  update_listed-NodupKeys : NodupKeys c.attributes → NodupKeys c'.attributes
  unfolding update_one list_in_parent update_listed
  update_listed-NodupKeys n = elim (Option-cases d.names) [
    | inl bare ↦ absurd (ground arith)
    | inr (m, full) ↦
        let dir = (split_path r.path).0 in
        let d' = record d { names = some (list_names r (split_path r.path).1 m) } in
        store_attr-NodupKeys (record c { attributes = insert dir d' c.attributes }) c' r
          (insert-NodupKeys dir d' c.attributes n) (ground arith)
  ]

  module _ (tidy : (is_empty r.path || clean r.path == r.path) ≡ true)
      (plain : is_plain (split_path r.path).1 ≡ true) (children : check_children r ≡ true) where
    dir_after-check_children : check_children d ≡ true → check_children (dir_after d r) ≡ true
    unfolding check_children dir_after list_names
    dir_after-check_children h = elim (Option-cases d.names) [
      | inl bare ↦ rw bare refl
      | inr (m, full) ↦ elim (Bool-cases (deletion r)) [
        | inl gone ↦ rw (full, gone) (check_names-erase (split_path r.path).1 m (ground arith))
        | inr stays ↦
            rw (full, stays)
              (check_names-insert (split_path r.path).1 (type_bits (mode_of r)) m plain f.named
                (f.typed stays) (ground arith))
      ]
    ]

    entry_after-check_children :
        (a : FileAttr)
        → entry_after (lookup r.path c.attributes) r ≡ some a
        → check_children a ≡ true
    unfolding entry_after
    entry_after-check_children a e = elim (Option-cases (lookup r.path c.attributes)) [
      | inl new ↦ subst (λ x. check_children x ≡ true) (ground arith) children
      | inr (old, there) ↦
          merge-check_children old r a (ground arith) (verify-rest c r.path old v there).2 children
    ]

    after :
        (k : Bytes) (a : FileAttr)
        → lookup k c'.attributes ≡ some a
        → ((is_empty k || clean k == k) ≡ true) × (check_children a ≡ true)
    after k a e =
        let now = update_one-lookup c c' r f.named u d cached k in
        elim (Bool-cases (k == r.path)) [
          | inl same ↦
              (rw ((bytes_iff k r.path).0 same) tidy, entry_after-check_children a (ground arith))
          | inr apart ↦ elim (Bool-cases (k == (split_path r.path).0)) [
            | inl beside ↦
                let old =
                  verify-rest c k d v (rw ((bytes_iff k (split_path r.path).0).0 beside) cached) in
                (
                  old.0,
                  subst (λ x. check_children x ≡ true) (ground arith)
                      (dir_after-check_children old.2),
                )
            | inr elsewhere ↦ let old = verify-rest c k a v (ground arith) in (old.0, old.2)
          ]
        ]

-- A cache that `verify` lets pass, with one entry for a path.
pub record IsVerified (c : Cache) : Type 0 where
  pub nodup : NodupKeys c.attributes
  pub clean : (k : Bytes) (a : FileAttr) → lookup k c.attributes ≡ some a → IsClean k
  pub passes : verify true c ≡ true

-- An update whose path and names `verify` does not object to.
pub record IsLegal (r : FileAttr) : Type 0 where
  pub tidy : (is_empty r.path || clean r.path == r.path) ≡ true
  pub plain : is_plain (split_path r.path).1 ≡ true
  pub children : check_children r ≡ true

-- A round of `update` that does not panic keeps a cache one that `verify` lets pass, with its paths different and
-- each with one slash before its last component, if the update is fit, and its path and the names in it are
-- such as `verify` lets pass.
pub update_one-IsVerified :
    (c c' : Cache) (r : FileAttr)
    → IsVerified c
    → IsFit c r
    → IsLegal r
    → update_one c r ≡ some c'
    → IsVerified c'
update_one-IsVerified c c' r i f g u =
    elim (Option-cases (lookup (split_path r.path).0 c.attributes)) [
      | inl new ↦ rw (update_one_discarded c c' r f.named new u) i
      | inr (d, cached) ↦
          let linked = update_one-IsLinked c c' r (verify-IsLinked c i.clean i.passes) f u in
          let nodup = update_listed-NodupKeys c c' r d i.passes f u cached i.nodup in
          record {
            nodup = nodup;
            clean = λ k a e. (linked k a e).clean;
            passes = IsLinked-verify c' nodup linked (λ k a e.
                let (tidy, children) =
                  after c c' r d i.passes f u cached g.tidy g.plain g.children k a e in
                (tidy, update_listed-IsIdle c c' r d i.passes f u cached k a e, children));
          }
    ]
