-- ===== src/Social/Invariant.antt =====
-- When the friend graph of internal/domain/social is consistent, and what a row changes about it.
use vfx.Base.{ℕ, ◌≡◌, ◌≢◌, refl, true, false, [], ◌∷◌, arith}
use vfx.Social.Graph.{Graph, edge, has, remove}
use vfx.Social.Pairs.{sorted}
use vfx.Social.Tables.{has-insert, has-remove, friends, friends-insert, friends-remove}

pub record IsConsistent (g : Graph) : Type 0 where
  pub severed :
      (a b : ℕ)
      → has a b g.blocks ≡ true
      → (has a b g.requests ≡ false)
        × (has b a g.requests ≡ false)
        × (friends a b g.friendships ≡ false)
  pub one_way : (a b : ℕ) → has a b g.requests ≡ true → has b a g.requests ≡ false
  pub settled : (a b : ℕ) → friends a b g.friendships ≡ true → has a b g.requests ≡ false
  pub others : (a : ℕ) → (friends a a g.friendships ≡ false) × (has a a g.blocks ≡ false)

abbrev pub new_graph : Graph
new_graph = record { requests = []; friendships = []; blocks = [] }

pub new_graph-IsConsistent : IsConsistent new_graph
unfolding has
new_graph-IsConsistent = record {
  severed = λ a b h. (refl, refl, refl);
  one_way = λ a b h. refl;
  settled = λ a b h. refl;
  others = λ a. (refl, refl);
}

-- Two players with no relation.
pub record IsApart (g : Graph) (a b : ℕ) : Type 0 where
  pub unrequested : (has a b g.requests ≡ false) × (has b a g.requests ≡ false)
  pub unfriended : friends a b g.friendships ≡ false
  pub unblocked : (has a b g.blocks ≡ false) × (has b a g.blocks ≡ false)
  pub distinct : a ≢ b

pub request-added :
    (g : Graph) (c d now : ℕ)
    → IsConsistent g
    → IsApart g c d
    → IsConsistent (record g { requests = edge c d now ∷ g.requests })
request-added g c d now s p = record {
  severed = λ a b h. ground (
    arith,
    has-insert a b c d now g.requests,
    has-insert b a c d now g.requests,
    s.severed a b,
    p.unblocked,
    p.distinct,
  );
  one_way = λ a b h. ground (
    arith,
    has-insert a b c d now g.requests,
    has-insert b a c d now g.requests,
    s.one_way a b,
    p.unrequested,
    p.distinct,
  );
  settled = λ a b h. ground (arith, has-insert a b c d now g.requests, s.settled a b, p.unfriended);
  others = s.others;
}

pub request-removed :
    (g : Graph) (c d : ℕ)
    → IsConsistent g
    → IsConsistent (record g { requests = remove c d g.requests })
request-removed g c d s = record {
  severed = λ a b h.
      ground (arith, has-remove a b c d g.requests, has-remove b a c d g.requests, s.severed a b);
  one_way = λ a b h.
      ground (arith, has-remove a b c d g.requests, has-remove b a c d g.requests, s.one_way a b);
  settled = λ a b h. ground (arith, has-remove a b c d g.requests, s.settled a b);
  others = s.others;
}

pub friendship-added :
    (g : Graph) (c d now : ℕ)
    → IsConsistent g
    → IsApart g c d
    → IsConsistent
        (record g { friendships = edge (sorted c d).0 (sorted c d).1 now ∷ g.friendships })
friendship-added g c d now s p = record {
  severed =
      λ a b h. ground (arith, friends-insert a b c d now g.friendships, s.severed a b, p.unblocked);
  one_way = s.one_way;
  settled = λ a b h.
      ground (arith, friends-insert a b c d now g.friendships, s.settled a b, p.unrequested);
  others = λ a. ground (arith, friends-insert a a c d now g.friendships, s.others a, p.distinct);
}

pub friendship-removed :
    (g : Graph) (c d : ℕ)
    → IsConsistent g
    → IsConsistent (record g { friendships = remove (sorted c d).0 (sorted c d).1 g.friendships })
friendship-removed g c d s = record {
  severed = λ a b h. ground (arith, friends-remove a b c d g.friendships, s.severed a b);
  one_way = s.one_way;
  settled = λ a b h. ground (arith, friends-remove a b c d g.friendships, s.settled a b);
  others = λ a. ground (arith, friends-remove a a c d g.friendships, s.others a);
}

pub block-added :
    (g : Graph) (c d now : ℕ)
    → IsConsistent g
    → (has c d g.requests ≡ false) × (has d c g.requests ≡ false)
    → friends c d g.friendships ≡ false
    → c ≢ d
    → IsConsistent (record g { blocks = edge c d now ∷ g.blocks })
block-added g c d now s unrequested unfriended distinct = record {
  severed = λ a b h.
      ground (arith, has-insert a b c d now g.blocks, s.severed a b, unrequested, unfriended);
  one_way = s.one_way;
  settled = s.settled;
  others = λ a. ground (arith, has-insert a a c d now g.blocks, s.others a);
}

pub block-removed :
    (g : Graph) (c d : ℕ)
    → IsConsistent g
    → IsConsistent (record g { blocks = remove c d g.blocks })
block-removed g c d s = record {
  severed = λ a b h. ground (arith, has-remove a b c d g.blocks, s.severed a b);
  one_way = s.one_way;
  settled = s.settled;
  others = λ a. ground (arith, has-remove a a c d g.blocks, s.others a);
}
