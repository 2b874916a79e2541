-- ===== src/MessageService/Durability/Fresh.antt =====
-- Entries with new ids among entries with known ids, for the invariant of `MessageService.World`.
use digital_square.Base.{
  String, ◌≡◌, ◌≢◌, inl, inr, sym, ◌∙◌, List, [], ◌∷◌, ◌++◌, All, All-imp, All-append, Has,
  Has_elim, Has-append_left, Has-All,
}
use digital_square.Models.{Message}
use digital_square.Wal.{WalEntry}
use digital_square.MessageService.{Parts}
use digital_square.MessageService.Invariant.{IsKept, Agree, AllAgree, AllIssued}

module _ (P : Parts) where
  pub IsKept-log :
      (entries more : List WalEntry) (rows : List Message) (msg : Message)
      → IsKept P entries rows msg
      → IsKept P (entries ++ more) rows msg
  IsKept-log entries more rows msg (inl h) = inl (Has-append_left _ entries more h)
  IsKept-log entries more rows msg (inr h) = inr h

  pub IsKept-rows :
      (entries : List WalEntry) (rows new : List Message) (msg : Message)
      → IsKept P entries rows msg
      → IsKept P entries (rows ++ new) msg
  IsKept-rows entries rows new msg (inl h) = inl h
  IsKept-rows entries rows new msg (inr h) = inr (Has-append_left _ rows new h)

  module _ (issued : List String) (e : WalEntry)
      (fresh : All (λ id. id ≢ e.message_id) issued) where
    -- An entry whose id is new agrees with every entry whose id is not.
    not_issued : (p : WalEntry) → Has (λ id. id ≡ p.message_id) issued → p.message_id ≢ e.message_id
    not_issued p h same =
        Has_elim _ ⊥ issued (λ id both. both.1 (both.0 ∙ same)) (Has-All _ _ issued h fresh)

    pub fresh-Agree : (xs : List WalEntry) → AllIssued P issued xs → All (Agree P e) xs
    fresh-Agree = All-imp _ _ (λ p h same. absurd (not_issued p h (sym same)))

    Agree-fresh : (xs : List WalEntry) → AllIssued P issued xs → All (λ p. Agree P p e) xs
    Agree-fresh = All-imp _ _ (λ p h same. absurd (not_issued p h same))

    pub AllAgree-snoc :
        (xs ys : List WalEntry)
        → AllIssued P issued xs
        → AllAgree P xs ys
        → All (λ x. All (Agree P x) (ys ++ e ∷ [])) xs
    AllAgree-snoc [] ys k h = tt
    AllAgree-snoc (x ∷ xs) ys (kx, k) (hx, h) = (
      All-append (Agree P x) ys (e ∷ []) hx ((λ same. absurd (not_issued x kx same)), tt),
      AllAgree-snoc xs ys k h,
    )

  pub no_agreement : (xs : List WalEntry) → AllAgree P xs []
  no_agreement [] = tt
  no_agreement (x ∷ xs) = (tt, no_agreement xs)

  pub AllIssued-more :
      (issued : List String) (id : String) (xs : List WalEntry)
      → AllIssued P issued xs
      → AllIssued P (id ∷ issued) xs
  AllIssued-more issued id = All-imp _ _ (λ e h. inr h)
