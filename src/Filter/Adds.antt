-- ===== src/Filter/Adds.antt =====
-- What Add does to the answers of IsProxy.
use jocasta.Prelude.{◌≡◌, ◌||◌, refl, inl, inr, true, false, some, arith, Bool-cases, Option-cases}
use jocasta.Prelude.Int.{ℤ, pos}
use jocasta.Go.Io.{Bytes}
use jocasta.Go.Net.{bytes_eq}
use jocasta.Filter.{
  Mode, direct, proxy, intelligent, judge, ConcurrentMap, Item, Answer, Filter, hostname,
  match_proxy, match_direct, add, of_item, is_proxy,
}

module _ (Items : ConcurrentMap Item) (Hosts : ConcurrentMap (Unit {0})) where
  -- What Add puts in the cache.
  abbrev pub new_item : Bytes → Item
  new_item addr = record {
    addr = addr;
    success_count = 0;
    failure_count = 0;
    last_active_time = pos 0;
  }

  abbrev with_item : Bytes → Bytes → Filter Items Hosts → Filter Items Hosts
  with_item host addr f = record f { cache = Items.put host (new_item addr) f.cache }

  module _ (now : ℤ) (domain : Bytes) (f : Filter Items Hosts) where
    of_item_in_map : (item : Item) → (of_item Items Hosts now f item).in_map ≡ true
    unfolding of_item
    of_item_in_map item = go f.mode
      where
        go :
            (mode : Mode)
            → (elim mode as (λ _. Answer) [
              | direct ↦ record { proxied = false; in_map = true; failures = 0; successes = 0 }
              | proxy ↦ record { proxied = true; in_map = true; failures = 0; successes = 0 }
              | intelligent ↦ record {
                proxied = judge now f.alive_threshold item;
                in_map = true;
                failures = item.failure_count;
                successes = item.success_count;
              }
            ]).in_map
              ≡ true
        go direct = refl
        go proxy = refl
        go intelligent = refl

    in_map_listed :
        ((match_direct Items Hosts f (hostname domain)
            || match_proxy Items Hosts f (hostname domain))
          ≡ true)
        → (is_proxy Items Hosts now domain f).in_map ≡ true
    unfolding is_proxy
    in_map_listed h = elim (Bool-cases (match_proxy Items Hosts f (hostname domain))) [
      | inl t ↦ rw (is_proxy, t) refl
      | inr n ↦ rw (is_proxy, n, direct n) refl
    ]
      where
        direct :
            match_proxy Items Hosts f (hostname domain) ≡ false
            → match_direct Items Hosts f (hostname domain) ≡ true
        direct n = ground (arith)

    in_map_cached :
        {item : Item}
        → Items.get (hostname domain) f.cache ≡ some item
        → (is_proxy Items Hosts now domain f).in_map ≡ true
    unfolding is_proxy
    in_map_cached {item} e = elim (Bool-cases (match_proxy Items Hosts f (hostname domain))) [
      | inl t ↦ rw (is_proxy, t) refl
      | inr n ↦ elim (Bool-cases (match_direct Items Hosts f (hostname domain))) [
        | inl t ↦ rw (is_proxy, n, t) refl
        | inr n' ↦ rw (is_proxy, n, n', e) (of_item_in_map item)
      ]
    ]

  -- After Add, IsProxy finds the domain, whatever the tables and the cache hold.
  pub is_proxy-add :
      (now : ℤ) (domain addr : Bytes) (f : Filter Items Hosts)
      → (is_proxy Items Hosts now domain (add Items Hosts domain addr f)).in_map ≡ true
  unfolding add
  is_proxy-add now domain addr f =
      elim (Bool-cases (
        match_direct Items Hosts f (hostname domain)
        || match_proxy Items Hosts f (hostname domain))) [
          | inl t ↦ rw (add, t) (in_map_listed now domain f t)
          | inr n ↦ elim (Option-cases (Items.get (hostname domain) f.cache)) [
            | inl e ↦
                rw (add, n, e)
                  (in_map_cached now domain (with_item (hostname domain) addr f)
                    (Items.get_put _ _ _))
            | inr (item, e) ↦ rw (add, n, e) (in_map_cached now domain f e)
          ]
        ]

  unseen :
      (now : ℤ) (other addr domain : Bytes) (f : Filter Items Hosts)
      → bytes_eq (hostname domain) (hostname other) ≡ false
      → is_proxy Items Hosts now other (with_item (hostname domain) addr f)
        ≡ is_proxy Items Hosts now other f
  unfolding is_proxy of_item match_proxy match_direct
  unseen now other addr domain f d =
      rw
        (is_proxy, Items.get_put_other (hostname domain) (hostname other) (new_item addr) f.cache d)
        refl

  -- Add changes no answer about a domain with another host name.
  pub is_proxy-add_other :
      (now : ℤ) (domain other addr : Bytes) (f : Filter Items Hosts)
      → bytes_eq (hostname domain) (hostname other) ≡ false
      → is_proxy Items Hosts now other (add Items Hosts domain addr f)
        ≡ is_proxy Items Hosts now other f
  unfolding add
  is_proxy-add_other now domain other addr f d =
      elim (Bool-cases (
        match_direct Items Hosts f (hostname domain)
        || match_proxy Items Hosts f (hostname domain))) [
          | inl t ↦ rw (add, t) refl
          | inr n ↦ elim (Option-cases (Items.get (hostname domain) f.cache)) [
            | inl e ↦ rw (add, n, e) (unseen now other addr domain f d)
            | inr (item, e) ↦ rw (add, n, e) refl
          ]
        ]
