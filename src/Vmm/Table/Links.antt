-- ===== src/Vmm/Table/Links.antt =====
-- The entries that `mappages` makes in the upper tables: no walk changes by them.
use os_risc_v.Prelude.{
  ℕ, ◌+◌, ◌-◌, ◌*◌, ◌^◌, ◌≤◌, ◌<◌, ◌≡◌, refl, true, false, ◌&&◌, none, some, ◌==◌, if◌then◌else◌,
  arith,
}
use os_risc_v.PageAlloc.{is_used}
use os_risc_v.Vmm.Table.{Vm, first_frame, is_valid, entry_frame, set_word, walk}
use os_risc_v.Vmm.Table.Tree.{Owner, mid, low, is_owned, IsTree, Fresh}

-- The tables after a step that changes no walk of user memory.
pub record Linked (vm : Vm) (r : ℕ) (own : ℕ → Owner) (vm' : Vm) (own' : ℕ → Owner) : Type 0 where
  pub tree : IsTree vm' r own'
  pub walks : (i j k : ℕ) → i < 256 → walk vm'.words r i j k ≡ walk vm.words r i j k

-- The entry `i` of the table at `f` leads to the table at `g`.
pub record Leads (vm : Vm) (f i g : ℕ) : Type 0 where
  pub valid : is_valid (vm.words f i) ≡ true
  pub frame : entry_frame (vm.words f i) ≡ g

abbrev pub own_also : ℕ → Owner → (ℕ → Owner) → ℕ → Owner
own_also g o own f = if f == g then o else own f

-- The words after the table at the clear frame `g` has come below the entry `i` of the table at `f`.
pub record Below (vm : Vm) (f i g : ℕ) (vm' : Vm) : Type 0 where
  pub word :
      (a j : ℕ)
      → vm'.words a j
        ≡ (if a == f && j == i then g * 2 ^ 10 + 1 else if a == g then 0 else vm.words a j)

module _ (vm vm' : Vm) (r i g : ℕ) (own : ℕ → Owner) (t : IsTree vm r own)
    (h : Fresh vm own g vm'.pool) (b : Below vm r i g vm') (low_half : i < 256)
    (bad : is_valid (vm.words r i) ≡ false) where
  root-to_mid :
      (a : ℕ)
      → a < 256
      → is_valid (vm'.words r a) ≡ true
      → own_also g (mid i) own (entry_frame (vm'.words r a)) ≡ mid a
  root-to_mid a l v = ground (arith, b.word r a, h.in_memory, h.unowned, t.at_root, t.to_mid a)

  root-to_low :
      (f a j : ℕ)
      → own_also g (mid i) own f ≡ mid a
      → is_valid (vm'.words f j) ≡ true
      → own_also g (mid i) own (entry_frame (vm'.words f j)) ≡ low a j
  root-to_low f a j o v = ground (arith, b.word f j, h.unowned, t.at_root, t.to_low f a j)

  root-in_use :
      (f : ℕ)
      → is_owned (own_also g (mid i) own f) ≡ true
      → (first_frame ≤ f) × (is_used (vm'.pool.pages_map (f - first_frame)).flag ≡ true)
  root-in_use f o = ground (arith, h.from_first, h.now_used, t.in_use f, h.kept (f - first_frame))

  pub root-Tree : IsTree vm' r (own_also g (mid i) own)
  root-Tree = record {
    pool_valid = h.pool_valid;
    at_root = ground (arith, t.at_root, h.unowned);
    to_mid = root-to_mid;
    to_low = root-to_low;
    in_use = root-in_use;
  }

  pub root-walks : (a j k : ℕ) → a < 256 → walk vm'.words r a j k ≡ walk vm.words r a j k
  unfolding walk
  root-walks a j k l = ground (
    arith,
    h.unowned,
    t.at_root,
    b.word r a,
    t.to_mid a,
    h.in_memory,
    b.word (entry_frame (vm'.words r a)) j,
    t.to_low (entry_frame (vm.words r a)) a j,
    b.word (entry_frame (vm'.words (entry_frame (vm'.words r a)) j)) k,
  )

module _ (vm vm' : Vm) (r f i a g : ℕ) (own : ℕ → Owner) (t : IsTree vm r own)
    (h : Fresh vm own g vm'.pool) (b : Below vm f i g vm') (o : own f ≡ mid a)
    (bad : is_valid (vm.words f i) ≡ false) where
  mid-to_mid :
      (c : ℕ)
      → c < 256
      → is_valid (vm'.words r c) ≡ true
      → own_also g (low a i) own (entry_frame (vm'.words r c)) ≡ mid c
  mid-to_mid c l v = ground (arith, b.word r c, o, h.unowned, t.at_root, t.to_mid c)

  mid-to_low :
      (e c j : ℕ)
      → own_also g (low a i) own e ≡ mid c
      → is_valid (vm'.words e j) ≡ true
      → own_also g (low a i) own (entry_frame (vm'.words e j)) ≡ low c j
  mid-to_low e c j p v =
      ground (arith, b.word e j, o, h.in_memory, h.unowned, t.at_root, t.to_low e c j)

  mid-in_use :
      (e : ℕ)
      → is_owned (own_also g (low a i) own e) ≡ true
      → (first_frame ≤ e) × (is_used (vm'.pool.pages_map (e - first_frame)).flag ≡ true)
  mid-in_use e p = ground (arith, h.from_first, h.now_used, t.in_use e, h.kept (e - first_frame))

  pub mid-Tree : IsTree vm' r (own_also g (low a i) own)
  mid-Tree = record {
    pool_valid = h.pool_valid;
    at_root = ground (arith, t.at_root, h.unowned);
    to_mid = mid-to_mid;
    to_low = mid-to_low;
    in_use = mid-in_use;
  }

  -- The table at `f` and the new one are no root.
  pub mid-root : (j : ℕ) → vm'.words r j ≡ vm.words r j
  mid-root j = ground (arith, b.word r j, o, h.unowned, t.at_root)

  pub mid-walks : (c j k : ℕ) → c < 256 → walk vm'.words r c j k ≡ walk vm.words r c j k
  unfolding walk
  mid-walks c j k l = ground (
    arith,
    o,
    h.unowned,
    mid-root c,
    t.to_mid c,
    h.in_memory,
    b.word (entry_frame (vm.words r c)) j,
    t.to_low (entry_frame (vm.words r c)) c j,
    b.word (entry_frame (vm'.words (entry_frame (vm.words r c)) j)) k,
  )

-- The entry `k` of the table at `g` becomes `e`.
module _ (vm : Vm) (r i j k f g e : ℕ) (own : ℕ → Owner) (t : IsTree vm r own) (low_half : i < 256)
    (p : Leads vm r i f) (q : Leads vm f j g) where
  abbrev pub written : Vm
  written = record vm { words = set_word g k e vm.words }

  pub owned-mid : own f ≡ mid i
  owned-mid = rw p.frame at (t.to_mid i low_half p.valid)

  owned-low : own g ≡ low i j
  owned-low = rw q.frame at (t.to_low f i j owned-mid q.valid)

  leaf-word : (a b : ℕ) → written.words a b ≡ (if a == g && b == k then e else vm.words a b)
  leaf-word a b = refl

  pub leaf-Tree : IsTree written r own
  leaf-Tree = record {
    pool_valid = t.pool_valid;
    at_root = t.at_root;
    to_mid = λ a l v. ground (arith, owned-low, t.at_root, t.to_mid a l);
    to_low = λ a b c o v. ground (arith, owned-low, t.to_low a b c o);
    in_use = t.in_use;
  }

  leaf-root : (a : ℕ) → written.words r a ≡ vm.words r a
  leaf-root a = ground (arith, owned-low, t.at_root)

  leaf-mid : (h a b : ℕ) → own h ≡ mid a → written.words h b ≡ vm.words h b
  leaf-mid h a b o = ground (arith, owned-low)

  low-other : (h a b : ℕ) → own h ≡ low a b → (a == i && b == j) ≡ false → (h == g) ≡ false
  low-other h a b o n = ground (arith, owned-low)

  -- The walk to that entry finds it, where it is valid, and no other walk changes.
  pub leaf-here :
      (c : ℕ)
      → walk written.words r i j c
        ≡ (if c == k then if is_valid e then some e else none else walk vm.words r i j c)
  unfolding walk
  leaf-here c =
      ground (arith, leaf-root i, leaf-mid f i j owned-mid, p.valid, p.frame, q.valid, q.frame)

  pub leaf-there :
      (a b c : ℕ)
      → a < 256
      → (a == i && b == j) ≡ false
      → walk written.words r a b c ≡ walk vm.words r a b c
  unfolding walk
  leaf-there a b c l n =
      let h = entry_frame (vm.words r a) in
      ground (
        arith,
        leaf-root a,
        t.to_mid a,
        leaf-mid h a b,
        t.to_low h a b,
        low-other (entry_frame (vm.words h b)) a b,
      )
