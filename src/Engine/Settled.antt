-- ===== src/Engine/Settled.antt =====
-- Reads at a sequence number above all versions do not depend on it.
use basalt.Prelude.{
  ℕ, ◌≤◌, ◌≡◌, refl, sym, ◌∙◌, Option, none, some, List, [], ◌∷◌, ◌++◌, arith, Bytes, All, le_bytes,
}
use basalt.Keys.{
  InternalKey, ok, decode_internal_key, append_internal_key, append_seek_key, max_seq, max_kind,
  trailer,
}
use basalt.Keys.Codec.{decode-append_internal_key}
use basalt.Keys.Order.{version_order}
use basalt.Memtable
use basalt.Memtable.{MemTable, SkipNode, find_ge, new_table}
use basalt.Memtable.Search.{linear_search, find_ge-linear_search}
use basalt.Memtable.Insert.{Encodes, IsTable, All-map}
use basalt.Memtable.Added.{append_internal_key-HasTrailer}
use basalt.Memtable.Visible.{before-encoded, encoded_in_range}
use basalt.Engine.{Db, TableFile, l0_get, level_get, deeper_get, imm_get, or_else}

-- The version in the node is not newer than `p`.
abbrev pub AtMost : ℕ → SkipNode → Type 0
AtMost p n = (ik : InternalKey) → decode_internal_key n.key ≡ ok ik → ik.seq ≤ p

search-settled :
    (user : Bytes) (p q : ℕ) (a b : Bytes) (nodes : List SkipNode)
    → append_internal_key [] user p max_kind ≡ some a
    → append_internal_key [] user q max_kind ≡ some b
    → p ≤ q
    → All Encodes nodes
    → All (AtMost p) nodes
    → linear_search b nodes ≡ linear_search a nodes
unfolding linear_search version_order
search-settled user p q a b [] ea eb le w s = refl
search-settled user p q a b (n ∷ nodes) ea eb le w s =
    let e = w.0 in
    ground (
      arith,
      before-encoded e.user e.seq e.kind user p max_kind n.key a e.key_is ea,
      before-encoded e.user e.seq e.kind user q max_kind n.key b e.key_is eb,
      encoded_in_range e.user e.seq e.kind n.key e.key_is,
      s.0 (record { user_key = e.user; seq = e.seq; kind = e.kind })
          (decode-append_internal_key [] e.user e.seq e.kind n.key e.key_is),
      search-settled user p q a b nodes ea eb le w.1 s.1,
    )

pub seekable :
    (user : Bytes) (p : ℕ)
    → p ≤ max_seq
    → (a : Bytes) × (append_internal_key [] user p max_kind ≡ some a)
unfolding append_internal_key
seekable user p h = (([] ++ user) ++ le_bytes 8 (trailer p max_kind), ground arith)

pub get-settled :
    (user : Bytes) (p q : ℕ) (m : MemTable)
    → p ≤ q
    → q ≤ max_seq
    → IsTable m
    → All (AtMost p) m.nodes
    → Memtable.get user q m ≡ Memtable.get user p m
unfolding basalt.Memtable.get append_seek_key
get-settled user p q m le h w s =
    let (a, ea) = seekable user p (omega (arith, le, h)) in
    let (b, eb) = seekable user q h in
    ground (
      arith,
      ea,
      eb,
      find_ge-linear_search a m (append_internal_key-HasTrailer user p max_kind a ea) w.sorted,
      find_ge-linear_search b m (append_internal_key-HasTrailer user q max_kind b eb) w.sorted,
      search-settled user p q a b m.nodes ea eb le w.encoded s,
    )

-- The memtable's versions are not newer than `p`.
pub record Upto (p : ℕ) (m : MemTable) : Type 0 where
  pub table : IsTable m
  pub upto : All (AtMost p) m.nodes

abbrev pub ImmUpto : ℕ → Option MemTable → Type 0
ImmUpto p none = Unit
ImmUpto p (some m) = Upto p m

module _ {ℓ} {T : Type ℓ} (table_get : T → Bytes → ℕ → Option (Option (Bytes × ℕ))) where
  -- Reads of the table at sequence numbers from `p` on are the same.
  abbrev pub TableUpto : ℕ → T → Type 0
  TableUpto p t =
      (user : Bytes) (q : ℕ) → p ≤ q → q ≤ max_seq → table_get t user q ≡ table_get t user p

  l0_get-settled :
      (user : Bytes) (p q : ℕ) (ts : List T)
      → p ≤ q
      → q ≤ max_seq
      → All (TableUpto p) ts
      → l0_get table_get user q ts ≡ l0_get table_get user p ts
  unfolding l0_get
  l0_get-settled user p q [] le h w = refl
  l0_get-settled user p q (t ∷ ts) le h w =
      ground (arith, w.0 user q le h, l0_get-settled user p q ts le h w.1)

  level_get-settled :
      (user : Bytes) (p q : ℕ) (fs : List (TableFile T))
      → p ≤ q
      → q ≤ max_seq
      → All (λ f. TableUpto p f.table) fs
      → level_get table_get user q fs ≡ level_get table_get user p fs
  unfolding level_get
  level_get-settled user p q [] le h w = refl
  level_get-settled user p q (f ∷ fs) le h w =
      ground (arith, w.0 user q le h, level_get-settled user p q fs le h w.1)

  deeper_get-settled :
      (user : Bytes) (p q : ℕ) (ls : List (List (TableFile T)))
      → p ≤ q
      → q ≤ max_seq
      → All (All (λ f. TableUpto p f.table)) ls
      → deeper_get table_get user q ls ≡ deeper_get table_get user p ls
  unfolding deeper_get
  deeper_get-settled user p q [] le h w = refl
  deeper_get-settled user p q (l ∷ ls) le h w =
      ground (arith, level_get-settled user p q l le h w.0, deeper_get-settled user p q ls le h w.1)

  imm_get-settled :
      (user : Bytes) (p q : ℕ) (imm : Option MemTable)
      → p ≤ q
      → q ≤ max_seq
      → ImmUpto p imm
      → imm_get user q imm ≡ imm_get user p imm
  unfolding imm_get
  imm_get-settled user p q none le h w = refl
  imm_get-settled user p q (some m) le h w = get-settled user p q m le h w.table w.upto

  -- What holds of an engine between its steps.
  pub record IsDb (db : Db T) : Type ℓ where
    pub mem : Upto db.seq db.mem
    pub imm : ImmUpto db.seq db.imm
    pub l0 : All (TableUpto db.seq) db.l0
    pub deeper : All (All (λ f. TableUpto db.seq f.table)) db.deeper
    pub seq_in : db.seq ≤ max_seq

  -- What stands behind the memtable in a search.
  unfoldable pub behind : Bytes → ℕ → Db T → Option (Option (Bytes × ℕ))
  behind key seq db =
      or_else (imm_get key seq db.imm)
        (or_else (l0_get table_get key seq db.l0) (deeper_get table_get key seq db.deeper))

  pub behind-settled :
      (key : Bytes) (q : ℕ) (db : Db T)
      → IsDb db
      → db.seq ≤ q
      → q ≤ max_seq
      → behind key q db ≡ behind key db.seq db
  unfolding behind
  behind-settled key q db w le h = ground (
    arith,
    imm_get-settled key db.seq q db.imm le h w.imm,
    l0_get-settled key db.seq q db.l0 le h w.l0,
    deeper_get-settled key db.seq q db.deeper le h w.deeper,
  )

  TableUpto-later : (p q : ℕ) (t : T) → p ≤ q → q ≤ max_seq → TableUpto p t → TableUpto q t
  TableUpto-later p q t le h w user r l k = w user r (omega (arith, le, l)) k ∙ sym (w user q le h)

  pub l0-later :
      (p q : ℕ) (ts : List T) → p ≤ q → q ≤ max_seq → All (TableUpto p) ts → All (TableUpto q) ts
  l0-later p q ts le h w =
      All-map (TableUpto p) (TableUpto q) ts (λ t. TableUpto-later p q t le h) w

  pub deeper-later :
      (p q : ℕ) (ls : List (List (TableFile T)))
      → p ≤ q
      → q ≤ max_seq
      → All (All (λ f. TableUpto p f.table)) ls
      → All (All (λ f. TableUpto q f.table)) ls
  deeper-later p q ls le h w =
      All-map (All (λ f. TableUpto p f.table)) (All (λ f. TableUpto q f.table)) ls
        (λ fs.
          All-map (λ f. TableUpto p f.table) (λ f. TableUpto q f.table) fs
            (λ f. TableUpto-later p q f.table le h))
        w

pub Upto-later : (p q : ℕ) (m : MemTable) → p ≤ q → Upto p m → Upto q m
Upto-later p q m le w = record {
  table = w.table;
  upto = All-map (AtMost p) (AtMost q) m.nodes (λ n f ik e. omega (arith, f ik e, le)) w.upto;
}

pub imm-later : (p q : ℕ) (imm : Option MemTable) → p ≤ q → ImmUpto p imm → ImmUpto q imm
imm-later p q none le w = tt
imm-later p q (some m) le w = Upto-later p q m le w
