-- ===== src/AlertManager/Recent.antt =====
-- The stored alerts as the newest of a log.
use zhtp.Base.{
  ℕ, suc, ◌≡◌, refl, sym, ap, ◌∙◌, List, [], ◌∷◌, ◌++◌, reverse, ltb, arith, inl, inr, Bool-cases,
}
use mathlib.Core.List.{reverse-cons, reverse-append, reverse-reverse}
use zhtp.Base.Lists.{length, take, take-append_le, take_all, take-cons_take, length-reverse}
use zhtp.AlertManager.{Alert, trim}

-- What a log of alerts, the newest first, shows of itself in the order of the queue.
abbrev pub newest : ℕ → List Alert → List Alert
newest max log = reverse (take max log)

trim-newest : (max : ℕ) (alerts : List Alert) → trim max alerts ≡ newest max (reverse alerts)
unfolding trim
trim-newest max [] = rw (take_all {A = Alert} max [] (omega arith)) refl
trim-newest max (alert ∷ alerts) = elim (Bool-cases (ltb max (suc (length alerts)))) [
  | inl full ↦
      rw (full, reverse-cons)
        (trim-newest max alerts
          ∙ ap reverse (
              sym (
                take-append_le max (reverse alerts) (alert ∷ [])
                  (ground (arith, length-reverse alerts)))))
  | inr fits ↦ rw fits (
      sym (
        ap reverse (
          take_all max (reverse (alert ∷ alerts)) (ground (arith, length-reverse (alert ∷ alerts))))
        ∙ reverse-reverse (alert ∷ alerts)))
]

pub trim-concat :
    (max : ℕ) (alert : Alert) (log : List Alert)
    → trim max (newest max log ++ alert ∷ []) ≡ newest max (alert ∷ log)
trim-concat max alert log =
    trim-newest max (newest max log ++ alert ∷ [])
    ∙ ap (newest max) (
        reverse-append (newest max log) (alert ∷ [])
        ∙ ap (λ xs. alert ∷ xs) (reverse-reverse (take max log)))
    ∙ ap reverse (take-cons_take max alert log)

pub newest-nil : (max : ℕ) → newest max [] ≡ []
newest-nil max = ap reverse (take_all {A = Alert} max [] (omega arith))
