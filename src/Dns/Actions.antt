-- ===== src/Dns/Actions.antt =====
-- What a systemctl action that returns has done, and how that carries through a sequence of actions.
use secureblue.Base.{arith}
use secureblue.Base.{ℕ}
use secureblue.Base.{◌≡◌, refl, sym, ap, ◌∙◌, inl, inr}
use secureblue.Base.{Bool-cases}
use secureblue.Base.{Option, List, String}
use secureblue.Base.{◌==◌, nat_eq, string_eq, list_eq}
use mathlib.Core.Path.{subst}
use secureblue.Base.Exec.{Result, ok, Exec, ◌>>=◌, >>=-eq-ok}
use secureblue.Systemd.{Systemctl, stop}
use secureblue.Dns.World.{World, Exit, act}
use secureblue.Dns.Worker.{DnsResolver, unbound, resolved, service, network_manager, get_current}

module _ (ctl : Systemctl) (unit : String) (actions : List String) (P : ctl.Units → Type 0) where
  -- What a call that succeeds gives, an action that returns gives, whichever of its calls succeeded.
  pub act-gives :
      ((s : ctl.Units) → (ctl.call actions unit s).0 ≡ 0 → P (ctl.call actions unit s).1)
      → (w : World ctl.Units) → (act ctl unit actions w).0 ≡ ok tt
      → P (act ctl unit actions w).1.units
  unfolding act
  act-gives gives w h =
      let next = (ctl.call actions unit w.units).1 in
      elim (Bool-cases ((ctl.call actions unit w.units).0 == 0)) [
        | inl e ↦ rw e (gives w.units (ground (arith, e)))
        | inr e ↦ elim (Bool-cases ((ctl.call actions unit next).0 == 0)) [
          | inl f ↦ rw (e, f) (gives next (ground (arith, f)))
          | inr f ↦ let no_way = rw (e, f) at h in absurd (ground (arith, no_way))
        ]
      ]

  -- What each call keeps, an action keeps, whether it returns or not.
  pub act-keeps :
      ((s : ctl.Units) → P s → P (ctl.call actions unit s).1)
      → (w : World ctl.Units) → P w.units
      → P (act ctl unit actions w).1.units
  unfolding act
  act-keeps keeps w p =
      let next = (ctl.call actions unit w.units).1 in
      elim (Bool-cases ((ctl.call actions unit w.units).0 == 0)) [
        | inl e ↦ rw e (keeps w.units p)
        | inr e ↦ elim (Bool-cases ((ctl.call actions unit next).0 == 0)) [
          | inl f ↦ rw (e, f) (keeps next (keeps w.units p))
          | inr f ↦ rw (e, f) (keeps next (keeps w.units p))
        ]
      ]

-- Stopping NetworkManager or one of the resolvers leaves alone which of the resolvers are enabled:
-- systemctl(1) has starting and enabling as independent of each other.
pub record StopsOnly (ctl : Systemctl) : Type 0 where
  pub stop_manager :
      (r : DnsResolver) (s : ctl.Units)
      → ctl.is_enabled (service r) (ctl.call stop network_manager s).1
        ≡ ctl.is_enabled (service r) s
  pub stop_service :
      (r r' : DnsResolver) (s : ctl.Units)
      → ctl.is_enabled (service r) (ctl.call stop (service r') s).1 ≡ ctl.is_enabled (service r) s

-- Stopping a unit that is stopped by the worker keeps the current resolver.
pub get_current-kept_manager :
    (ctl : Systemctl) (law : StopsOnly ctl) (uid : Option ℕ) (w : World ctl.Units)
    → get_current ctl uid (act ctl network_manager stop w).1 ≡ get_current ctl uid w
unfolding get_current
get_current-kept_manager ctl law uid w =
    let kept = λ (r : DnsResolver).
      act-keeps ctl network_manager stop
        (λ t. ctl.is_enabled (service r) t ≡ ctl.is_enabled (service r) w.units)
        (λ s p. law.stop_manager r s ∙ p) w refl in
    rw (kept unbound, kept resolved) refl

pub get_current-kept_service :
    (ctl : Systemctl) (law : StopsOnly ctl) (uid : Option ℕ) (r' : DnsResolver)
    (w : World ctl.Units)
    → get_current ctl uid (act ctl (service r') stop w).1 ≡ get_current ctl uid w
unfolding get_current
get_current-kept_service ctl law uid r' w =
    let kept = λ (r : DnsResolver).
      act-keeps ctl (service r') stop
        (λ t. ctl.is_enabled (service r) t ≡ ctl.is_enabled (service r) w.units)
        (λ s p. law.stop_service r r' s ∙ p) w refl in
    rw (kept unbound, kept resolved) refl

module _ {U A : Type 0} where
  -- Where the action returns, the units have the property.
  abbrev pub Ends : (U → Type 0) → Exec (World U) Exit A → Type 0
  Ends P m = (w t : World U) (a : A) → m w ≡ (ok a, t) → P t.units

  abbrev pub Keeps : (U → Type 0) → Exec (World U) Exit A → Type 0
  Keeps P m = (w t : World U) (a : A) → m w ≡ (ok a, t) → P w.units → P t.units

module _ {U A B : Type 0} (P : U → Type 0) where
  pub Ends-last :
      (m : Exec (World U) Exit A) (f : A → Exec (World U) Exit B)
      → ((a : A) → Ends P (f a))
      → Ends P (m >>= f)
  Ends-last m f h w t b e = let (a, s, _, g) = >>=-eq-ok m f w t b e in h a s t b g

  pub Ends-Keeps :
      (m : Exec (World U) Exit A) (f : A → Exec (World U) Exit B)
      → Ends P m
      → ((a : A) → Keeps P (f a))
      → Ends P (m >>= f)
  Ends-Keeps m f h k w t b e = let (a, s, e1, g) = >>=-eq-ok m f w t b e in k a s t b g (h w s a e1)

  pub Keeps-Keeps :
      (m : Exec (World U) Exit A) (f : A → Exec (World U) Exit B)
      → Keeps P m
      → ((a : A) → Keeps P (f a))
      → Keeps P (m >>= f)
  Keeps-Keeps m f h k w t b e p =
      let (a, s, e1, g) = >>=-eq-ok m f w t b e in k a s t b g (h w s a e1 p)

module _ {U A : Type 0} (P : U → Type 0) where
  -- An action that leaves the units alone.
  pub Keeps-untouched :
      (m : Exec (World U) Exit A) → ((w : World U) → (m w).1.units ≡ w.units) → Keeps P m
  Keeps-untouched m same w t a e p =
      subst P (sym (same w) ∙ ap (λ (r : Result Exit A × World U). r.1.units) e) p
