-- ===== src/System/Privacy.antt =====
-- What the requests of one passenger leave of the check-ins and waitlist entries of the others.
use sky_high_core.Common.{
  true, ℕ, ◌≡◌, refl, ◌∙◌, ap, inl, inr, Option, none, some, String, ◌==◌, if◌then◌else◌, arith,
  ==-refl, Option-cases,
}
use sky_high_core.Domain.Entities.{CheckIn, Waitlist}
use sky_high_core.Domain.Errors.{ok}
use sky_high_core.Platform.Table.{changed_at, update_by_id}
use sky_high_core.Platform.Backend.{Database, Tables}
use sky_high_core.CheckIn.Start.{new_check_in, hold_transaction}
use sky_high_core.CheckIn.Start.Held.{hold_transaction-SeatTaken}
use sky_high_core.CheckIn.Confirm.{awaiting_payment, completed, complete_transaction}
use sky_high_core.CheckIn.Confirm.Effects.{complete_transaction-SeatConfirmed}
use sky_high_core.CheckIn.Cancel.{cancelled, cancel_transaction}
use sky_high_core.Waitlist.Queue.{left}
use sky_high_core.CheckIn.Cancel.Effects.{cancel_transaction-SeatFreed}
use sky_high_core.System.Motion.{Motion, Seen}

-- A row as anybody but passenger `p` sees it.
abbrev pub check_in_of_others : ℕ → Option CheckIn → Option CheckIn
check_in_of_others p none = none
check_in_of_others p (some c) = if c.passenger_id == p then none else some c

abbrev pub entry_of_others : ℕ → Option Waitlist → Option Waitlist
entry_of_others p none = none
entry_of_others p (some e) = if e.passenger_id == p then none else some e

module _ (db : Database) (p : ℕ) where
  -- The check-ins and the waitlist entries of all passengers but `p` are the same.
  pub record Spares (t t' : Tables db) : Type 0 where
    pub check_ins :
        (i : ℕ)
        → check_in_of_others p (db.check_in_rows.row t'.check_ins i)
          ≡ check_in_of_others p (db.check_in_rows.row t.check_ins i)
    pub entries :
        (i : ℕ)
        → entry_of_others p (db.waitlist_rows.row t'.waitlists i)
          ≡ entry_of_others p (db.waitlist_rows.row t.waitlists i)

  pub Spares-refl : (t t' : Tables db) → t' ≡ t → Spares t t'
  Spares-refl t t' same = record {
    check_ins = λ i. ap (λ u. check_in_of_others p (db.check_in_rows.row u.check_ins i)) same;
    entries = λ i. ap (λ u. entry_of_others p (db.waitlist_rows.row u.waitlists i)) same;
  }

  Spares-trans : (t u v : Tables db) → Spares t u → Spares u v → Spares t v
  Spares-trans t u v before next = record {
    check_ins = λ i. next.check_ins i ∙ before.check_ins i;
    entries = λ i. next.entries i ∙ before.entries i;
  }

  -- A change of a check-in that was the passenger's own.
  Spares-changed_at :
      (f : CheckIn → CheckIn) (id : ℕ) (t t' : Tables db)
      → ((c : CheckIn) → (f c).passenger_id ≡ c.passenger_id)
      → Seen db p Spares id t
      → ((i : ℕ)
          → db.check_in_rows.row t'.check_ins i
            ≡ changed_at f (some id) (db.check_in_rows.row t.check_ins) i)
      → t'.waitlists ≡ t.waitlists
      → Spares t t'
  Spares-changed_at f id t t' keeps (t₀, c, at, own, since) is same = record {
    check_ins = λ i. elim (Option-cases (db.check_in_rows.row t.check_ins id)) [
      | inl lost ↦ ground (arith, is i)
      | inr (d, now) ↦ ground (arith, is i, since.check_ins id, keeps d)
    ];
    entries = λ i. ap (λ u. entry_of_others p (db.waitlist_rows.row u i)) same;
  }

  -- A hold adds a check-in of the passenger's.
  Spares-hold :
      (f s held_at created_at : ℕ) (c : CheckIn) (t t' : Tables db)
      → hold_transaction p f s held_at created_at t ≡ (ok c, t')
      → Spares t t'
  unfolding new_check_in
  Spares-hold f s held_at created_at c t t' h =
      let d = hold_transaction-SeatTaken p f s held_at created_at c t t' h in
      let own : c.passenger_id ≡ p = ap (λ x. x.passenger_id) d.booking in
      record {
        check_ins = λ i. ground (arith, d.check_ins i, d.is_new, own, ==-refl p);
        entries = λ i. ap (λ u. entry_of_others p (db.waitlist_rows.row u i)) d.waitlists;
      }

  Spares-complete :
      (c : CheckIn) (weight : Option ℕ) (payment : Option String) (t t' : Tables db)
      → Seen db p Spares c.id t
      → complete_transaction c weight payment t ≡ (ok tt, t')
      → Spares t t'
  Spares-complete c weight payment t t' seen h =
      let d = complete_transaction-SeatConfirmed c weight payment t t' h in
      Spares-changed_at (completed d.numeral payment) c.id t t' (λ x. refl) seen d.check_ins
        d.waitlists

  Spares-join :
      (e : Waitlist) (rows : db.waitlist_rows.State) (t : Tables db)
      → e.passenger_id ≡ p
      → db.waitlist_rows.row t.waitlists e.id ≡ none
      → db.waitlist_rows.insert e t.waitlists ≡ some rows
      → db.is_passenger e.passenger_id ≡ true
      → Spares t (record t { waitlists = rows })
  Spares-join e rows t own is_new h known = record {
    check_ins = λ i. refl;
    entries = λ i. ground (
      arith,
      db.waitlist_rows.insert_law e t.waitlists,
      db.waitlist_rows.row-added e t.waitlists i,
      ==-refl p,
    );
  }

  Spares-leave :
      (e : Waitlist) (t : Tables db)
      → e.passenger_id ≡ p
      → db.waitlist_rows.row t.waitlists e.id ≡ some e
      → Spares t (record t { waitlists = db.waitlist_rows.save (left e) t.waitlists })
  Spares-leave e t own at = record {
    check_ins = λ i. refl;
    entries = λ i. ground (arith, db.waitlist_rows.row-save (left e) t.waitlists i, ==-refl p);
  }

  -- Nothing that the requests of a passenger write concerns a row of another passenger.
  pub privacy : Motion db p
  privacy = record {
    Moved = Spares;
    stays = Spares-refl;
    follows = Spares-trans;
    holds = Spares-hold;
    completes = Spares-complete;
    awaits_fee = λ id weight fee t seen.
        Spares-changed_at (awaiting_payment weight fee) id t _ (λ x. refl) seen
          (λ i.
            update_by_id db.check_in_rows id (awaiting_payment weight fee) t.check_ins i
              (λ r. refl))
          refl;
    cancels = λ c t seen.
        let d = cancel_transaction-SeatFreed c t in
        Spares-changed_at cancelled c.id t (cancel_transaction c t).1 (λ x. refl) seen d.check_ins
          d.waitlists;
    joins = Spares-join;
    leaves = Spares-leave;
  }

  pub privacy_of_Spares : (t t' : Tables db) → Spares t t' → privacy.Moved t t'
  unfolding privacy
  privacy_of_Spares t t' spares = spares

  pub Spares-of_privacy : (t t' : Tables db) → privacy.Moved t t' → Spares t t'
  unfolding privacy
  Spares-of_privacy t t' moved = moved
