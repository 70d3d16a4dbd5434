-- ===== src/Storage/Table/Keeps.antt =====
-- A heap file whose data pages stand for stores of slots: what reading and writing a page makes of it.
use skipper_db.Base.{
  ℕ, zero, suc, ◌<◌, ◌≡◌, refl, ap, List, [], ◌∷◌, ◌++◌, some, length, get_elem?, set, arith,
  length-append, length-set,
}
use skipper_db.Base.Utf8.{Bytes}
use skipper_db.Errors.{ok}
use skipper_db.Storage.Page
use skipper_db.Storage.Page.{SlottedPage}
use skipper_db.Storage.Page.Store.{Store}
use skipper_db.Storage.Page.Refines.{Represents}
use skipper_db.Storage.BTree
use skipper_db.Storage.Table.{Table, page_count, read_page, write_page}

abbrev pub Stands : List Bytes → List Store → Type 0
Stands [] [] = Unit
Stands [] (s ∷ ss) = ⊥
Stands (p ∷ ps) [] = ⊥
Stands (p ∷ ps) (s ∷ ss) = Represents (record { bytes = p }) s × Stands ps ss

-- The table's data pages stand for the stores, and their number fits a u32.
pub record Keeps (t : Table) (ss : List Store) : Type 0 where
  pub meta : Bytes
  pub pages : List Bytes
  pub filed : t.file ≡ meta ∷ pages
  pub stands : Stands pages ss
  pub small : suc (length ss) < 4294967296

-- A file of page 0 alone.
pub fresh-Keeps : (t : Table) (meta : Bytes) → t.file ≡ meta ∷ [] → Keeps t []
fresh-Keeps t meta e = record {
  meta = meta;
  pages = [];
  filed = e;
  stands = tt;
  small = omega arith;
}

-- The pages behind page 0 may change, and no other.
abbrev pub SameHead : Table → Table → Type 0
SameHead t t' =
    (meta : Bytes) (pages : List Bytes)
    → t.file ≡ meta ∷ pages
    → (pages' : List Bytes) × (t'.file ≡ meta ∷ pages')

pub write_page-SameHead :
    (t : Table) (k : ℕ) (q : SlottedPage) → SameHead t (write_page t (suc k) q)
unfolding write_page BTree.write_page
write_page-SameHead t k q meta pages e = (BTree.write_page pages k (Page.as_bytes q), rw e refl)

pub Stands-length : (ps : List Bytes) (ss : List Store) → Stands ps ss → length ps ≡ length ss
Stands-length [] [] h = refl
Stands-length [] (s ∷ ss) h = absurd h
Stands-length (p ∷ ps) [] h = absurd h
Stands-length (p ∷ ps) (s ∷ ss) h = ap suc (Stands-length ps ss h.1)

-- A page that is there, with the store that it stands for.
pub record Found (ps : List Bytes) (ss : List Store) (k : ℕ) : Type 0 where
  pub page : Bytes
  pub store : Store
  pub in_file : get_elem? ps k ≡ some page
  pub in_stores : get_elem? ss k ≡ some store
  pub represents : Represents (record { bytes = page }) store

Found-next :
    (p : Bytes) (ps : List Bytes) (s : Store) (ss : List Store) (k : ℕ)
    → Found ps ss k
    → Found (p ∷ ps) (s ∷ ss) (suc k)
Found-next p ps s ss k f = record {
  page = f.page;
  store = f.store;
  in_file = f.in_file;
  in_stores = f.in_stores;
  represents = f.represents;
}

pub Stands-Found :
    (ps : List Bytes) (ss : List Store) (k : ℕ) → Stands ps ss → k < length ss → Found ps ss k
Stands-Found [] [] k h l = absurd (omega arith)
Stands-Found [] (s ∷ ss) k h l = absurd h
Stands-Found (p ∷ ps) [] k h l = absurd h
Stands-Found (p ∷ ps) (s ∷ ss) zero h l = record {
  page = p;
  store = s;
  in_file = refl;
  in_stores = refl;
  represents = h.0;
}
Stands-Found (p ∷ ps) (s ∷ ss) (suc k) h l =
    Found-next p ps s ss k (Stands-Found ps ss k h.1 (omega arith))

module _ (q : SlottedPage) (s' : Store) (r : Represents q s') where
  pub Stands-set :
      (ps : List Bytes) (ss : List Store) (k : ℕ)
      → Stands ps ss
      → k < length ss
      → Stands (BTree.write_page ps k q.bytes) (set ss k s')
  unfolding BTree.write_page
  Stands-set [] [] k h l = absurd (omega arith)
  Stands-set [] (s ∷ ss) k h l = absurd h
  Stands-set (p ∷ ps) [] k h l = absurd h
  Stands-set (p ∷ ps) (s ∷ ss) zero h l = (r, h.1)
  Stands-set (p ∷ ps) (s ∷ ss) (suc k) h l = (h.0, Stands-set ps ss k h.1 (omega arith))

  pub Stands-append :
      (ps : List Bytes) (ss : List Store) (k : ℕ)
      → Stands ps ss
      → k ≡ length ss
      → Stands (BTree.write_page ps k q.bytes) (ss ++ (s' ∷ []))
  unfolding BTree.write_page
  Stands-append [] [] zero h l = (r, tt)
  Stands-append [] [] (suc k) h l = absurd (omega arith)
  Stands-append [] (s ∷ ss) k h l = absurd h
  Stands-append (p ∷ ps) [] k h l = absurd h
  Stands-append (p ∷ ps) (s ∷ ss) zero h l = absurd (omega arith)
  Stands-append (p ∷ ps) (s ∷ ss) (suc k) h l = (h.0, Stands-append ps ss k h.1 (omega arith))

module _ (t : Table) (ss : List Store) (h : Keeps t ss) where
  pub Keeps-page_count : page_count t ≡ suc (length ss)
  unfolding page_count
  Keeps-page_count = rw h.filed (omega (arith, Stands-length h.pages ss h.stands, h.small))

  pub Keeps-Found : (k : ℕ) → k < length ss → Found h.pages ss k
  Keeps-Found k l = Stands-Found h.pages ss k h.stands l

  pub Keeps-read_page :
      (k : ℕ) (f : Found h.pages ss k) → read_page t (suc k) ≡ ok (record { bytes = f.page })
  unfolding read_page BTree.read_page Page.from_bytes
  Keeps-read_page k f = rw (h.filed, BTree.read_page, f.in_file) refl

  module _ (q : SlottedPage) (s' : Store) (r : Represents q s') where
    pub Keeps-set : (k : ℕ) → k < length ss → Keeps (write_page t (suc k) q) (set ss k s')
    unfolding write_page BTree.write_page Page.as_bytes
    Keeps-set k l = record {
      meta = h.meta;
      pages = BTree.write_page h.pages k q.bytes;
      filed = rw h.filed refl;
      stands = Stands-set q s' r h.pages ss k h.stands l;
      small = omega (arith, h.small, length-set ss k s');
    }

    pub Keeps-append :
        suc (suc (length ss)) < 4294967296
        → Keeps (write_page t (suc (length ss)) q) (ss ++ (s' ∷ []))
    unfolding write_page BTree.write_page Page.as_bytes
    Keeps-append room = record {
      meta = h.meta;
      pages = BTree.write_page h.pages (length ss) q.bytes;
      filed = rw h.filed refl;
      stands = Stands-append q s' r h.pages ss (length ss) h.stands refl;
      small = omega (arith, length-append ss (s' ∷ []));
    }
