-- ===== src/System/Motion.antt =====
-- What the requests of one passenger do to the tables, as an interface: a relation between states
-- that the writes of their methods keep to. The methods are followed once, for all such relations.
use sky_high_core.Common.{true, ℕ, refl, ◌≡◌, Option, none, some, String, ◌==◌}
use sky_high_core.Domain.Entities.{CheckIn, Waitlist}
use sky_high_core.Domain.Errors.{ok}
use sky_high_core.Platform.Backend.{Backend, Database, Tables}
use sky_high_core.Platform.World.{World}
use sky_high_core.CheckIn.Start.{hold_transaction}
use sky_high_core.CheckIn.Confirm.{complete_transaction, awaiting_payment}
use sky_high_core.CheckIn.Cancel.{cancel_transaction}
use sky_high_core.Waitlist.Queue.{left}
use sky_high_core.System.{Steps, stay, one, append, hold, complete, await_fee, cancel, join, leave}

module _ (db : Database) (p : ℕ) (Moved : Tables db → Tables db → Type 0) where
  -- A check-in was the passenger's own in an earlier state.
  abbrev pub Seen : ℕ → Tables db → Type 0
  Seen id t =
      (t₀ : Tables db) × (c : CheckIn) × (db.check_in_rows.row t₀.check_ins id ≡ some c)
      × (c.passenger_id ≡ p)
      × Moved t₀ t

pub record Motion (db : Database) (p : ℕ) : Type 1 where
  pub Moved : Tables db → Tables db → Type 0
  pub stays : (t t' : Tables db) → t' ≡ t → Moved t t'
  pub follows : (t u v : Tables db) → Moved t u → Moved u v → Moved t v
  pub holds :
      (f s held_at created_at : ℕ) (c : CheckIn) (t t' : Tables db)
      → hold_transaction p f s held_at created_at t ≡ (ok c, t')
      → Moved t t'
  pub completes :
      (c : CheckIn) (weight : Option ℕ) (payment : Option String) (t t' : Tables db)
      → Seen db p Moved c.id t
      → complete_transaction c weight payment t ≡ (ok tt, t')
      → Moved t t'
  pub awaits_fee :
      (id weight fee : ℕ) (t : Tables db)
      → Seen db p Moved id t
      → Moved t (record t {
        check_ins =
            db.check_in_rows.update (λ c. c.id == id) (awaiting_payment weight fee) t.check_ins;
      })
  pub cancels :
      (c : CheckIn) (t : Tables db) → Seen db p Moved c.id t → Moved t (cancel_transaction c t).1
  pub joins :
      (e : Waitlist) (rows : db.waitlist_rows.State) (t : Tables db)
      → e.passenger_id ≡ p
      → db.waitlist_rows.row t.waitlists e.id ≡ none
      → db.waitlist_rows.insert e t.waitlists ≡ some rows
      → db.is_passenger e.passenger_id ≡ true
      → Moved t (record t { waitlists = rows })
  pub leaves :
      (e : Waitlist) (t : Tables db)
      → e.passenger_id ≡ p
      → db.waitlist_rows.row t.waitlists e.id ≡ some e
      → Moved t (record t { waitlists = db.waitlist_rows.save (left e) t.waitlists })

-- What runs beside a method of the passenger's.
abbrev pub Beside : {be : Backend} {p : ℕ} → Motion be.db p → (World be → World be) → Type 0
Beside {be} m meanwhile = (w : World be) → m.Moved w.tables (meanwhile w).tables

module _ {db : Database} {p : ℕ} (m : Motion db p) where
  pub rests : {t t' : Tables db} → t' ≡ t → m.Moved t t'
  rests {t} {t'} e = m.stays t t' e

  pub ends : {t u v : Tables db} → v ≡ u → m.Moved t u → m.Moved t v
  ends {t} {u} {v} e moved = m.follows t u v moved (m.stays u v e)

  pub join_on : {t u v : Tables db} → m.Moved t u → m.Moved u v → m.Moved t v
  join_on {t} {u} {v} before then = m.follows t u v before then

  pub later :
      {t u : Tables db} {id : ℕ} → m.Moved t u → Seen db p m.Moved id t → Seen db p m.Moved id u
  later {t} {u} moved (t₀, c, at, own, since) = (t₀, c, at, own, m.follows t₀ t u since moved)

-- The steps of the system are such a relation, for every passenger.
abbrev pub steps : (db : Database) (p : ℕ) → Motion db p
steps db p = record {
  Moved = Steps db;
  stays = λ t t' e. stay e;
  follows = λ t u v ss rs. append ss rs;
  holds = λ f s held_at created_at c t t' e. one (hold p f s held_at created_at c e);
  completes = λ c weight payment t t' seen e. one (complete c weight payment e);
  awaits_fee = λ id weight fee t seen. one (await_fee id weight fee refl);
  cancels = λ c t seen. one (cancel c refl);
  joins = λ e rows t own is_new q known. one (join e rows q known refl);
  leaves = λ e t own at. one (leave e at refl);
}
