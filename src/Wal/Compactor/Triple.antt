-- ===== src/Wal/Compactor/Triple.antt =====
-- Reasoning about a run of a compaction: what holds in all its worlds, and what holds at its end.
use selfstack.Prelude.{◌≡◌, refl, List, Result, ok, err, Error, All, All-weaken, All-append}
use selfstack.Wal.Compactor.Ran.{World, Ran, and_then, on_error, done, failed, change, returned}

abbrev pub Ends : {A : Type 0} → (World → A → Type 0) → (World → Type 0) → World → Result A → Type 0
Ends Q E w (ok a) = Q w a
Ends Q E w (err e) = E w

-- P holds after every change and at the end, Q of a value and E after an error.
pub record Ensures {A : Type 0} (P : World → Type 0) (Q : World → A → Type 0) (E : World → Type 0)
    (r : Ran A) : Type 0 where
  pub along : All P r.past
  pub now : P r.world
  pub ends : Ends Q E r.world r.result

module _ {A : Type 0} (P : World → Type 0) (Q : World → A → Type 0) (E E' : World → Type 0) where
  module _ {B : Type 0} (Q' : World → B → Type 0) where
    bind-Ensures :
        (past : List World) (w : World) (res : Result A) (f : World → A → Ran B)
        → All P past
        → P w
        → Ends Q E w res
        → ((w : World) (a : A) → P w → Q w a → Ensures P Q' E (f w a))
        → Ensures P Q' E (and_then (record { past = past; world = w; result = res }) f)
    bind-Ensures past w (ok a) f along now ends next =
        let after = next w a now ends in
        record {
          along = All-append P past (f w a).past along after.along;
          now = after.now;
          ends = after.ends;
        }
    bind-Ensures past w (err e) f along now ends next = record {
      along = along;
      now = now;
      ends = ends;
    }

    pub and_then-Ensures :
        (r : Ran A) (f : World → A → Ran B)
        → Ensures P Q E r
        → ((w : World) (a : A) → P w → Q w a → Ensures P Q' E (f w a))
        → Ensures P Q' E (and_then r f)
    and_then-Ensures r f h next = bind-Ensures r.past r.world r.result f h.along h.now h.ends next

  clean-Ensures :
      (past : List World) (w : World) (res : Result A) (c : World → Ran (Unit {0}))
      → All P past
      → P w
      → Ends Q E w res
      → ((w : World) → P w → E w → Ensures P (λ w _. E' w) E' (c w))
      → Ensures P Q E' (on_error (record { past = past; world = w; result = res }) c)
  clean-Ensures past w (ok a) c along now ends clean = record {
    along = along;
    now = now;
    ends = ends;
  }
  clean-Ensures past w (err e) c along now ends clean =
      let after = clean w now ends in
      record {
        along = All-append P past (c w).past along after.along;
        now = after.now;
        ends = either (c w).world (c w).result after.ends;
      }
    where
      either : (w : World) (res : Result (Unit {0})) → Ends (λ w _. E' w) E' w res → E' w
      either w (ok u) h = h
      either w (err e) h = h

  pub on_error-Ensures :
      (r : Ran A) (c : World → Ran (Unit {0}))
      → Ensures P Q E r
      → ((w : World) → P w → E w → Ensures P (λ w _. E' w) E' (c w))
      → Ensures P Q E' (on_error r c)
  on_error-Ensures r c h clean = clean-Ensures r.past r.world r.result c h.along h.now h.ends clean

module _ (P : World → Type 0) (Q : World → Unit {0} → Type 0) (E : World → Type 0) where
  pub done-Ensures : (w : World) → P w → Q w tt → Ensures P Q E (done w)
  done-Ensures w p q = record { along = tt; now = p; ends = q }

  pub change-Ensures : (w : World) → P w → Q w tt → Ensures P Q E (change w)
  change-Ensures w p q = record { along = (p, tt); now = p; ends = q }

module _ {A : Type 0} (P : World → Type 0) (Q : World → A → Type 0) (E : World → Type 0) where
  pub failed-Ensures : (w : World) (e : Error) → P w → E w → Ensures P Q E (failed e w)
  failed-Ensures w e p q = record { along = tt; now = p; ends = q }

  pub returned-Ensures :
      (r : Result A) (w : World)
      → P w
      → ((a : A) → r ≡ ok a → Q w a)
      → E w
      → Ensures P Q E (returned r w)
  returned-Ensures (ok a) w p q e = record { along = tt; now = p; ends = q a refl }
  returned-Ensures (err x) w p q e = record { along = tt; now = p; ends = e }

-- A weaker invariant and weaker ends.
module _ {A : Type 0} {P P' : World → Type 0} {Q Q' : World → A → Type 0}
    {E E' : World → Type 0} where
  pub weaken-Ensures :
      (r : Ran A)
      → ((w : World) → P w → P' w)
      → ((w : World) (a : A) → Q w a → Q' w a)
      → ((w : World) → E w → E' w)
      → Ensures P Q E r
      → Ensures P' Q' E' r
  weaken-Ensures r f g h e = record {
    along = All-weaken P P' r.past f e.along;
    now = f r.world e.now;
    ends = at_end r.world r.result e.ends;
  }
    where
      at_end : (w : World) (res : Result A) → Ends Q E w res → Ends Q' E' w res
      at_end w (ok a) q = g w a q
      at_end w (err x) q = h w q
