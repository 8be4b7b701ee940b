-- ===== src/Funnel/Tiers.antt =====
-- core/tier_funnel.py: the Hot and the Super tier as one state, their dicts, the orders that rotate
-- over them and the set of promoted coins.
pub mod Kept
pub mod Moves
pub mod Rescore
pub mod Reached
pub mod Stands
pub mod Spares
use binance_future_bot.Base.{
  ◌≡◌, refl, ap, sym, ◌∙◌, Bool, true, false, ◌&&◌, ◌||◌, not, Option, none, some, List, [], ◌∷◌,
  ◌++◌, arith, if◌then◌else◌, mem, ◌=?◌, Distinct, text_eq, Bool-cases, inl, inr, mem-append,
  Distinct-append_one, =?_iff,
}
use binance_future_bot.Base.Text.{Text, upper}
use binance_future_bot.Base.Dict.{
  Dict, lookup, insert, delete, keys, lookup-insert, lookup-delete, mem-keys-insert,
  mem-keys-delete, mem-keys-delete_other, mem-keys-delete_self, insert-Distinct, delete-Distinct,
  mem-keys-lookup,
}
use binance_future_bot.Base.Sets.{
  set_add, discard, mem-set_add, mem-discard, set_add-Distinct, discard-Distinct,
}
use binance_future_bot.Funnel.Types.{HotRecord, SuperRecord, TierFunnel}

-- What the tiers hold.
pub record Tiering : Type 0 where
  pub hot : Dict Text HotRecord
  pub hot_order : List Text
  pub super : Dict Text SuperRecord
  pub super_order : List Text
  pub promoted : List Text

abbrev pub tiering_of : TierFunnel → Tiering
tiering_of m = record {
  hot = m.hot;
  hot_order = m.hot_order;
  super = m.super;
  super_order = m.super_order;
  promoted = m.promoted;
}

-- No coin twice in a tier or an order, none in two tiers; an order lists the coins of its tier, the
-- promoted coins are those of both and perhaps some of `left`, and a Hot record stands under its own
-- symbol, in upper case. `left` are the coins that `drop_super` took out of Super: they stay among the promoted.
pub record Valid (left : List Text) (t : Tiering) : Type 0 where
  pub hot_once : Distinct (keys t.hot)
  pub super_once : Distinct (keys t.super)
  pub hot_order_once : Distinct t.hot_order
  pub super_order_once : Distinct t.super_order
  pub hot_listed : (k : Text) → mem k t.hot_order ≡ mem k (keys t.hot)
  pub super_listed : (k : Text) → mem k t.super_order ≡ mem k (keys t.super)
  pub apart : (k : Text) → mem k (keys t.hot) ≡ true → mem k (keys t.super) ≡ false
  pub promoted_once : Distinct t.promoted
  pub promoted_all :
      (k : Text) → (mem k (keys t.hot) || mem k (keys t.super)) ≡ true → mem k t.promoted ≡ true
  pub promoted_only :
      (k : Text)
      → mem k t.promoted ≡ true
      → (mem k (keys t.hot) || mem k (keys t.super) || mem k left) ≡ true
  pub named : (k : Text) (rec : HotRecord) → lookup k t.hot ≡ some rec → rec.symbol ≡ k
  pub in_upper : (k : Text) → mem k (keys t.hot) ≡ true → upper k ≡ k

pub Valid-of : {left : List Text} {s t : Tiering} → t ≡ s → Valid left s → Valid left t
Valid-of e v = rw e v

mem-keys-delete_eq :
    {V : Type 0} (k j : Text) (d : Dict Text V)
    → Distinct (keys d)
    → mem j (keys (delete k d)) ≡ (mem j (keys d) && not (k =? j))
mem-keys-delete_eq k j d h = elim (Bool-cases (j =? k)) [
  | inl same ↦
      let at : j ≡ k = (=?_iff j k).0 same in
      let gone : mem j (keys (delete j d)) ≡ false = mem-keys-delete_self j d h in
      let gone' : mem j (keys (delete k d)) ≡ false = cc (gone, at) in
      ground (arith, =?_iff j k, =?_iff k j)
  | inr other ↦
      let differ : (k =? j) ≡ false = ground (arith, =?_iff j k, =?_iff k j) in
      ground (arith, mem-keys-delete_other k j d differ)
]

abbrev pub with_hot : Text → HotRecord → Tiering → Tiering
with_hot key rec t = record t {
  hot = insert key rec t.hot;
  hot_order = t.hot_order ++ key ∷ [];
  promoted = set_add key t.promoted;
}

pub with_hot-Valid :
    {left : List Text} (key : Text) (rec : HotRecord) (t : Tiering)
    → Valid left t
    → upper key ≡ key
    → rec.symbol ≡ key
    → mem key (keys t.hot) ≡ false
    → mem key (keys t.super) ≡ false
    → Valid left (with_hot key rec t)
with_hot-Valid key rec t v up name new other = record {
  hot_once = insert-Distinct key rec t.hot v.hot_once;
  super_once = v.super_once;
  hot_order_once = Distinct-append_one key t.hot_order v.hot_order_once (v.hot_listed key ∙ new);
  super_order_once = v.super_order_once;
  hot_listed = λ k. ground (
    arith,
    mem-append k t.hot_order (key ∷ []),
    mem-keys-insert key k rec t.hot,
    v.hot_listed k,
    =?_iff k key,
    =?_iff key k,
  );
  super_listed = v.super_listed;
  apart = λ k h. ground (arith, mem-keys-insert key k rec t.hot, v.apart k, =?_iff key k);
  promoted_once = set_add-Distinct key t.promoted v.promoted_once;
  promoted_all = λ k h.
      ground
        (arith, mem-set_add key k t.promoted, mem-keys-insert key k rec t.hot, v.promoted_all k);
  promoted_only = λ k h.
      ground
        (arith, mem-set_add key k t.promoted, mem-keys-insert key k rec t.hot, v.promoted_only k);
  named = λ k r found. ground (arith, lookup-insert key k rec t.hot, v.named k r, =?_iff key k);
  in_upper = λ k h. elim (Bool-cases (key =? k)) [
    | inl same ↦ cc (up, (=?_iff key k).0 same)
    | inr other ↦ v.in_upper k (ground (arith, mem-keys-insert key k rec t.hot))
  ];
}

abbrev pub with_record : Text → HotRecord → Tiering → Tiering
with_record key rec t = record t { hot = insert key rec t.hot }

pub with_record-Valid :
    {left : List Text} (key : Text) (rec : HotRecord) (t : Tiering)
    → Valid left t
    → rec.symbol ≡ key
    → mem key (keys t.hot) ≡ true
    → Valid left (with_record key rec t)
with_record-Valid key rec t v name there =
    let same : (k : Text) → mem k (keys (insert key rec t.hot)) ≡ mem k (keys t.hot) =
      λ k. ground (arith, mem-keys-insert key k rec t.hot, =?_iff key k) in
    record {
      hot_once = insert-Distinct key rec t.hot v.hot_once;
      super_once = v.super_once;
      hot_order_once = v.hot_order_once;
      super_order_once = v.super_order_once;
      hot_listed = λ k. v.hot_listed k ∙ sym (same k);
      super_listed = v.super_listed;
      apart = λ k h. v.apart k (sym (same k) ∙ h);
      promoted_once = v.promoted_once;
      promoted_all = λ k h. ground (arith, v.promoted_all k, same k);
      promoted_only = λ k h. ground (arith, v.promoted_only k, same k);
      named = λ k r found. ground (arith, lookup-insert key k rec t.hot, v.named k r, =?_iff key k);
      in_upper = λ k h. v.in_upper k (sym (same k) ∙ h);
    }

abbrev pub without : Text → Tiering → Tiering
without key t = record {
  hot = delete key t.hot;
  hot_order = discard key t.hot_order;
  super = delete key t.super;
  super_order = discard key t.super_order;
  promoted = discard key t.promoted;
}

pub without-Valid :
    {left : List Text} (key : Text) (t : Tiering) → Valid left t → Valid left (without key t)
without-Valid key t v =
    let in_hot = λ (k : Text). mem-keys-delete_eq key k t.hot v.hot_once in
    let in_super = λ (k : Text). mem-keys-delete_eq key k t.super v.super_once in
    record {
      hot_once = delete-Distinct key t.hot v.hot_once;
      super_once = delete-Distinct key t.super v.super_once;
      hot_order_once = discard-Distinct key t.hot_order v.hot_order_once;
      super_order_once = discard-Distinct key t.super_order v.super_order_once;
      hot_listed = λ k. ground (arith, mem-discard key k t.hot_order, v.hot_listed k, in_hot k);
      super_listed =
          λ k. ground (arith, mem-discard key k t.super_order, v.super_listed k, in_super k);
      apart = λ k h. ground (arith, v.apart k, in_hot k, in_super k);
      promoted_once = discard-Distinct key t.promoted v.promoted_once;
      promoted_all = λ k h.
          ground (arith, mem-discard key k t.promoted, v.promoted_all k, in_hot k, in_super k);
      promoted_only = λ k h.
          ground (arith, mem-discard key k t.promoted, v.promoted_only k, in_hot k, in_super k);
      named = λ k r found. ground (arith, lookup-delete key k t.hot v.hot_once, v.named k r);
      in_upper = λ k h. v.in_upper k (ground (arith, in_hot k));
    }

abbrev pub with_super : Text → SuperRecord → Tiering → Tiering
with_super key rec t = record t {
  hot = delete key t.hot;
  hot_order = discard key t.hot_order;
  super = insert key rec t.super;
  super_order = if mem key (keys t.super) then t.super_order else t.super_order ++ key ∷ [];
}

pub with_super-Valid :
    {left : List Text} (key : Text) (rec : SuperRecord) (t : Tiering)
    → Valid left t
    → mem key (keys t.hot) ≡ true
    → Valid left (with_super key rec t)
with_super-Valid key rec t v there =
    let in_hot = λ (k : Text). mem-keys-delete_eq key k t.hot v.hot_once in
    let in_super = λ (k : Text). mem-keys-insert key k rec t.super in
    let absent : mem key (keys t.super) ≡ false = v.apart key there in
    record {
      hot_once = delete-Distinct key t.hot v.hot_once;
      super_once = insert-Distinct key rec t.super v.super_once;
      hot_order_once = discard-Distinct key t.hot_order v.hot_order_once;
      super_order_once =
          rw absent (
            Distinct-append_one key t.super_order v.super_order_once (v.super_listed key ∙ absent));
      hot_listed = λ k. ground (arith, mem-discard key k t.hot_order, v.hot_listed k, in_hot k);
      super_listed = λ k. ground (
        arith,
        absent,
        mem-append k t.super_order (key ∷ []),
        v.super_listed k,
        in_super k,
        =?_iff key k,
        =?_iff k key,
      );
      apart = λ k h. ground (arith, v.apart k, in_hot k, in_super k, =?_iff key k, =?_iff k key);
      promoted_once = v.promoted_once;
      promoted_all =
          λ k h. ground (arith, v.promoted_all k, in_hot k, in_super k, =?_iff key k, =?_iff k key);
      promoted_only = λ k h.
          ground (arith, v.promoted_only k, in_hot k, in_super k, =?_iff key k, =?_iff k key);
      named = λ k r found. ground (arith, lookup-delete key k t.hot v.hot_once, v.named k r);
      in_upper = λ k h. v.in_upper k (ground (arith, in_hot k));
    }

delete-absent : {V : Type 0} (k : Text) (d : Dict Text V) → mem k (keys d) ≡ false → delete k d ≡ d
unfolding delete
delete-absent k [] h = refl
delete-absent k ((j, w) ∷ d) h = ground (arith, =?_iff j k, =?_iff k j, delete-absent k d)

discard-absent : (k : Text) (l : List Text) → mem k l ≡ false → discard k l ≡ l
unfolding discard
discard-absent k [] h = refl
discard-absent k (x ∷ l) h = ground (arith, =?_iff x k, =?_iff k x, discard-absent k l)

-- Out of Hot alone, which suffices for a coin that is not in Super.
abbrev pub without_hot : Text → Tiering → Tiering
without_hot key t = record t {
  hot = delete key t.hot;
  hot_order = discard key t.hot_order;
  promoted = discard key t.promoted;
}

pub without_hot-Valid :
    {left : List Text} (key : Text) (t : Tiering)
    → Valid left t
    → mem key (keys t.super) ≡ false
    → Valid left (without_hot key t)
without_hot-Valid key t v absent =
    let listed : mem key t.super_order ≡ false = v.super_listed key ∙ absent in
    let same : without key t ≡ without_hot key t =
      cc (delete-absent key t.super absent, discard-absent key t.super_order listed) in
    rw (sym same) (without-Valid key t v)

abbrev pub without_super : Text → Tiering → Tiering
without_super key t = record t {
  super = delete key t.super;
  super_order = discard key t.super_order;
  promoted = discard key t.promoted;
}

pub without_super-Valid :
    {left : List Text} (key : Text) (t : Tiering)
    → Valid left t
    → mem key (keys t.hot) ≡ false
    → Valid left (without_super key t)
without_super-Valid key t v absent =
    let listed : mem key t.hot_order ≡ false = v.hot_listed key ∙ absent in
    let same : without key t ≡ without_super key t =
      cc (delete-absent key t.hot absent, discard-absent key t.hot_order listed) in
    rw (sym same) (without-Valid key t v)

-- Out of Super alone: the coin stays among the promoted.
abbrev pub left_super : Text → Tiering → Tiering
left_super key t = record t { super = delete key t.super; super_order = discard key t.super_order }

pub left_super-Valid :
    {left : List Text} (key : Text) (t : Tiering)
    → Valid left t
    → Valid (key ∷ left) (left_super key t)
left_super-Valid key t v =
    let in_super = λ (k : Text). mem-keys-delete_eq key k t.super v.super_once in
    record {
      hot_once = v.hot_once;
      super_once = delete-Distinct key t.super v.super_once;
      hot_order_once = v.hot_order_once;
      super_order_once = discard-Distinct key t.super_order v.super_order_once;
      hot_listed = v.hot_listed;
      super_listed =
          λ k. ground (arith, mem-discard key k t.super_order, v.super_listed k, in_super k);
      apart = λ k h. ground (arith, v.apart k, in_super k);
      promoted_once = v.promoted_once;
      promoted_all = λ k h. ground (arith, v.promoted_all k, in_super k);
      promoted_only =
          λ k h. ground (arith, v.promoted_only k h, in_super k, =?_iff key k, =?_iff k key);
      named = v.named;
      in_upper = v.in_upper;
    }
