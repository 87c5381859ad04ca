-- ===== src/Tunnel/Subnets.antt =====
-- What parseSubnets of pkg/tunnel/wireguard_tools.go makes of a list of texts.
use fleetboard.Prelude.{
  ℕ, ◌≡◌, refl, ap, sym, subst, ◌∙◌, ◌↔◌, inl, inr, List, [], ◌∷◌, Option, none, some, Elem,
}
use fleetboard.Prelude.Text.{Text}
use fleetboard.Net.Addr.{IpNet}
use fleetboard.Net.Format.{parse_cidr}
use fleetboard.Tunnel.Connect.{parse_subnets}

-- One of the texts is the text of the network.
pub record Listed (texts : List Text) (n : IpNet) : Type 0 where
  pub text : Text
  pub address : ℕ
  pub member : Elem text texts
  pub parsed : parse_cidr text ≡ some (address, n)

Listed-tail : (t : Text) (texts : List Text) (n : IpNet) → Listed texts n → Listed (t ∷ texts) n
Listed-tail t texts n l = record {
  text = l.text;
  address = l.address;
  member = inr l.member;
  parsed = l.parsed;
}

subnets-Listed : (texts : List Text) (n : IpNet) → Elem n (parse_subnets texts) → Listed texts n
unfolding parse_subnets
subnets-Listed [] n h = absurd h
subnets-Listed (t ∷ texts) n h =
    of_parse (parse_cidr t) refl (λ k. Listed-tail t texts n (subnets-Listed texts n k)) h
  where
    of_parse :
        (o : Option (ℕ × IpNet))
        → parse_cidr t ≡ o
        → (Elem n (parse_subnets texts) → Listed (t ∷ texts) n)
        → Elem n (elim o [ none ↦ parse_subnets texts | some (a, m) ↦ m ∷ parse_subnets texts ])
        → Listed (t ∷ texts) n
    of_parse none e f k = f k
    of_parse (some (a, m)) e f (inl k) = record {
      text = t;
      address = a;
      member = inl refl;
      parsed = e ∙ ap (λ x. some (a, x)) (sym k);
    }
    of_parse (some (a, m)) e f (inr k) = f k

Elem-subnets :
    (texts : List Text) (t : Text) (a : ℕ) (n : IpNet)
    → Elem t texts
    → parse_cidr t ≡ some (a, n)
    → Elem n (parse_subnets texts)
unfolding parse_subnets
Elem-subnets [] t a n m e = absurd m
Elem-subnets (u ∷ texts) t a n (inl m) e =
    subst
      (λ o. Elem n (elim o [ none ↦ parse_subnets texts | some (b, m) ↦ m ∷ parse_subnets texts ]))
      (sym e ∙ ap parse_cidr m) (inl refl)
Elem-subnets (u ∷ texts) t a n (inr m) e = of_parse (parse_cidr u) (Elem-subnets texts t a n m e)
  where
    of_parse :
        (o : Option (ℕ × IpNet))
        → Elem n (parse_subnets texts)
        → Elem n (elim o [ none ↦ parse_subnets texts | some (b, m) ↦ m ∷ parse_subnets texts ])
    of_parse none rest = rest
    of_parse (some (b, m)) rest = inr rest

-- The networks read are those of which one of the texts is the text.
pub parse_subnets-Listed :
    (texts : List Text) (n : IpNet) → Elem n (parse_subnets texts) ↔ Listed texts n
parse_subnets-Listed texts n =
    (subnets-Listed texts n, λ l. Elem-subnets texts l.text l.address n l.member l.parsed)
