-- ===== src/Worker/Reply/Complete.antt =====
-- `fillReply` as a whole: it does not end the worker, and sends every change with its contents.
use termite.Base.{◌≡◌, Bytes, true, none, some, bytes_eq, lookup, is_empty}
use termite.Paths.{join}
use termite.Attr.FileAttr.{FileAttr, is_regular}
use termite.Cba.Fetch.{Hash, Store, open_hash}
use termite.Union.Reap.{Result}
use termite.Union.Reap as Reap
use termite.Worker.Reply.{Files, Moving, attr_of, Reply}
use termite.Worker.Reply.Moved.{IsBelow, HasBacking, IsMoving}
use termite.Worker.Reply.Saved.{HasOriginal}

module _ (h : Hash) (get : Bytes → FileAttr) (root dir : Bytes) (F : Files) where
  -- What becomes of a result: a file of the set with its path, attributes and link. The content of its file
  -- is in the store under its hash, and a file that was only moved has the hash that it had.
  abbrev pub IsSent : Store → Bytes → Result → FileAttr → Type 0
  IsSent st path v f =
      (f.path ≡ join root path)
      × (f.attr ≡ v.attr)
      × (f.link ≡ v.link)
      × (HasBacking v
          → (c d : Bytes) × (lookup v.backing F ≡ some c)
            × (f.hash ≡ h.sum c)
            × (open_hash st f.hash ≡ some d)
            × (h.sum d ≡ f.hash))
      × (is_empty v.backing ≡ true
          → is_regular (attr_of root path v) ≡ true
          → HasOriginal h F get root v f.hash)

  module _ (fresh : (p : Bytes) → IsBelow dir p → lookup p F ≡ none) (t : Moving)
      (m : IsMoving dir F fresh t) where
    abbrev G : Files
    G = t.files
