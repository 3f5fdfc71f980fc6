-- ===== src/Services/Outbound/Sends/AllOrNothing.antt =====
-- A method that sends stores one message when it returns and none when it raises.
use acars_printer.Prelude.{
  ℕ, ◌≡◌, refl, ap, ◌∙◌, true, Option, none, some, ◌∷◌, ◌==◌, ==_iff, Bool-cases, inl, inr,
}
use acars_printer.Text.{Text}
use acars_printer.Hoppie.Types.{Result}
use acars_printer.Hoppie.Requests.{Fields, PdcRequest, PositionReport}
use acars_printer.Models.Messages.{StoredMessage, Database, Outbound, insert_outbound, get, find}
use acars_printer.Models.Settings.Switches.{companion_station_enabled}
use acars_printer.Services.Outbound.{
  Office, Outside, Raised, Answer, answer, raised, Action, lift, or_raise, go_on, ◌>>=◌,
  database_of, identify, station_credentials, wire_credentials, wire_or_refused,
  require_credentials, post, ensure_ok, store_outbound,
}
use acars_printer.Services.WireSession.{WireSessionCreds}
use acars_printer.Services.Outbound.Sends.{
  send_telex, reply_target, reply_cpdlc, take_min, remember_pdc, request_pdc, send_position,
}

-- What a method that sends may do to the messages.
pub data StoresOne (o : Office) : Answer StoredMessage × Office → Type 0 where
  nothing_stored :
      (e : Raised) (o' : Office) → database_of o' ≡ database_of o → StoresOne o (raised e, o')
  one_stored :
      (row : StoredMessage) (o' : Office)
      → (database_of o').messages ≡ row ∷ (database_of o).messages
      → StoresOne o (answer row, o')

-- A step leaves the messages alone.
abbrev Keeps {ℓ} : {A : Type ℓ} → Action A → Type 0
Keeps m = (o : Office) → database_of (m o).1 ≡ database_of o

module _ {ℓ κ} {A : Type ℓ} {B : Type κ} where
  >>=-Keeps :
      (m : Action A) (f : A → Action B) → Keeps m → ((a : A) → Keeps (f a)) → Keeps (m >>= f)
  unfolding ◌>>=◌
  >>=-Keeps m f h k o = go (m o) (h o)
    where
      go :
          (r : Answer A × Office)
          → database_of r.1 ≡ database_of o
          → database_of (go_on r f).1 ≡ database_of o
      go (answer x, o') e = k x o' ∙ e
      go (raised x, o') e = e

module _ {ℓ} {A : Type ℓ} where
  lift-Keeps : (r : Result A) → Keeps (lift r)
  lift-Keeps (Result.ok a) o = refl
  lift-Keeps (Result.raise e) o = refl

  or_raise-Keeps : (e : Raised) (r : Option A) → Keeps (or_raise e r)
  or_raise-Keeps e none o = refl
  or_raise-Keeps e (some a) o = refl

  -- A step that leaves the messages alone, before the rest of a method.
  >>=-StoresOne :
      (m : Action A) (f : A → Action StoredMessage) (o o' : Office)
      → Keeps m
      → database_of o' ≡ database_of o
      → ((a : A) (o'' : Office) → database_of o'' ≡ database_of o → StoresOne o (f a o''))
      → StoresOne o ((m >>= f) o')
  unfolding ◌>>=◌
  >>=-StoresOne m f o o' h e k = go (m o') (h o' ∙ e)
    where
      go : (r : Answer A × Office) → database_of r.1 ≡ database_of o → StoresOne o (go_on r f)
      go (answer x, o'') e = k x o'' e
      go (raised x, o'') e = nothing_stored x o'' e

wire_or_refused-Keeps : (w : Outside) (c : Option WireSessionCreds) → Keeps (wire_or_refused w c)
unfolding wire_or_refused
wire_or_refused-Keeps w none o = refl
wire_or_refused-Keeps w (some c) o = refl

identify-Keeps : (w : Outside) → Keeps (identify w)
unfolding identify
identify-Keeps w o = refl

station_credentials-Keeps : (w : Outside) → Keeps (station_credentials w)
unfolding station_credentials
station_credentials-Keeps w =
    >>=-Keeps _ _ (λ o. refl)
      (λ logon. >>=-Keeps _ _ (identify-Keeps w) (λ identity.
        >>=-Keeps _ _ (lift-Keeps _) (λ l. >>=-Keeps _ _ (lift-Keeps _) (λ cs o. refl))))

require_credentials-Keeps : (w : Outside) → Keeps (require_credentials w)
unfolding require_credentials
require_credentials-Keeps w o = elim (Bool-cases (companion_station_enabled o.settings)) [
  | inl station ↦ rw station (station_credentials-Keeps w o)
  | inr wire ↦ rw wire (unfold wire_credentials in wire_or_refused-Keeps w _ _)
]

post-Keeps : (w : Outside) (fields : Fields) → Keeps (post w fields)
unfolding post
post-Keeps w fields o = lift-Keeps (w.connect fields) _

ensure_ok-Keeps : (w : Outside) (raw : Text) → Keeps (ensure_ok w raw)
unfolding ensure_ok
ensure_ok-Keeps w raw o = lift-Keeps _ o

take_min-Keeps : Keeps take_min
unfolding take_min
take_min-Keeps o = refl

∷-messages :
    (row : StoredMessage) (db db' : Database) → db ≡ db' → row ∷ db.messages ≡ row ∷ db'.messages
∷-messages row db db' e = ap (λ (d : Database). row ∷ d.messages) e

store_outbound-StoresOne :
    (w : Outside) (row : Outbound) (o o' : Office)
    → database_of o' ≡ database_of o
    → StoresOne o (store_outbound w row o')
unfolding store_outbound insert_outbound get find
store_outbound-StoresOne w row o o' e =
    let same : ((database_of o').next_message == (database_of o').next_message) ≡ true =
      (==_iff _ _).1 refl in
    rw same (one_stored _ _ (∷-messages _ _ _ e))

reply_target-Keeps : (w : Outside) (id : ℕ) → Keeps (reply_target w id)
unfolding reply_target
reply_target-Keeps w id =
    >>=-Keeps _ _ (λ o. refl)
      (λ found. >>=-Keeps _ _ (or_raise-Keeps _ found) (λ inbound.
        >>=-Keeps _ _ (λ o. refl) (λ u. >>=-Keeps _ _ (lift-Keeps _) (λ sender o. refl))))

remember_pdc-Keeps : (w : Outside) (to : Text) (r : PdcRequest) → Keeps (remember_pdc w to r)
unfolding remember_pdc
remember_pdc-Keeps w to r =
    >>=-Keeps _ _ (λ o. refl)
      (λ u. >>=-Keeps _ _ (lift-Keeps _) (λ departure.
        >>=-Keeps _ _ (λ o. refl)
          (λ u. >>=-Keeps _ _ (lift-Keeps _) (λ destination.
            >>=-Keeps _ _ (λ o. refl)
              (λ u. >>=-Keeps _ _ (λ o. refl) (λ u. >>=-Keeps _ _ (λ o. refl) (λ u o. refl)))))))

-- A telex, a reply, the request of a clearance and a position report: the method stores one message,
-- before all others, when it returns, and leaves the stored messages and print jobs as they were when
-- it raises, whatever the network answers.
pub sends-StoresOne :
    (w : Outside) (o : Office) (to text reply : Text) (id : ℕ) (pdc : PdcRequest)
    (report : PositionReport)
    → StoresOne o (send_telex w to text o)
      × StoresOne o (reply_cpdlc w id reply o)
      × StoresOne o (request_pdc w pdc o)
      × StoresOne o (send_position w report o)
unfolding send_telex reply_cpdlc request_pdc send_position
sends-StoresOne w o to text reply id pdc report = (
  >>=-StoresOne _ _ o o (require_credentials-Keeps w) refl (λ c o1 e1.
      >>=-StoresOne _ _ o o1 (post-Keeps w _) e1 (λ raw o2 e2.
        >>=-StoresOne _ _ o o2 (ensure_ok-Keeps w raw) e2 (λ ms. store_outbound-StoresOne w _ o))),
  >>=-StoresOne _ _ o o (require_credentials-Keeps w) refl (λ c o1 e1.
      >>=-StoresOne _ _ o o1 (reply_target-Keeps w id) e1 (λ target o2 e2.
        >>=-StoresOne _ _ o o2 take_min-Keeps e2 (λ our_min o3 e3.
          >>=-StoresOne _ _ o o3 (lift-Keeps _) e3 (λ packet o4 e4.
            >>=-StoresOne _ _ o o4 (post-Keeps w _) e4 (λ raw o5 e5.
              >>=-StoresOne _ _ o o5 (ensure_ok-Keeps w raw) e5
                (λ ms. store_outbound-StoresOne w _ o)))))),
  >>=-StoresOne _ _ o o (require_credentials-Keeps w) refl (λ c o1 e1.
      >>=-StoresOne _ _ o o1 (λ o'. refl) e1
        (λ u o2 e2. >>=-StoresOne _ _ o o2 (lift-Keeps _) e2 (λ body o3 e3.
          >>=-StoresOne _ _ o o3 (post-Keeps w _) e3 (λ raw o4 e4.
            >>=-StoresOne _ _ o o4 (ensure_ok-Keeps w raw) e4 (λ ms o5 e5.
              >>=-StoresOne _ _ o o5 (remember_pdc-Keeps w _ pdc) e5
                (λ v. store_outbound-StoresOne w _ o)))))),
  >>=-StoresOne _ _ o o (require_credentials-Keeps w) refl (λ c o1 e1.
      >>=-StoresOne _ _ o o1 (λ o'. refl) e1
        (λ u o2 e2. >>=-StoresOne _ _ o o2 (lift-Keeps _) e2 (λ packet o3 e3.
          >>=-StoresOne _ _ o o3 (post-Keeps w _) e3 (λ raw o4 e4.
            >>=-StoresOne _ _ o o4 (ensure_ok-Keeps w raw) e4 (λ ms o5 e5.
              >>=-StoresOne _ _ o o5 (λ o'. refl) e5 (λ v. store_outbound-StoresOne w _ o)))))),
)
