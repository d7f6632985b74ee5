-- ===== src/Subscription/Equal.antt =====
-- The derived `Eq` of `Subscription`.
use order_book_server.Base.{ℕ, ◌≡◌, refl, subst, arith, true, Option, none, some, Eq, nat_eq}
use order_book_server.OrderBook.Types.{text_eq}
use order_book_server.Subscription.{Subscription, trades, l2_book, l4_book, option_beq, sub_beq}

option_beq_iff :
    (a b : Option ℕ) → (option_beq a b ≡ true → a ≡ b) × (a ≡ b → option_beq a b ≡ true)
option_beq_iff none none = (λ _. refl, λ _. refl)
option_beq_iff none (some b) = (λ h. cc, λ h. cc)
option_beq_iff (some a) none = (λ h. cc, λ h. cc)
option_beq_iff (some a) (some b) = (λ h. ground arith, λ h. ground arith)

sub_beq_refl : (s : Subscription) → sub_beq s s ≡ true
sub_beq_refl (trades a) = ground (arith, text_eq.beq_iff a a)
sub_beq_refl (l2_book a f n m) =
    ground (arith, text_eq.beq_iff a a, option_beq_iff f f, option_beq_iff n n, option_beq_iff m m)
sub_beq_refl (l4_book a) = ground (arith, text_eq.beq_iff a a)

sub_beq_iff→ : (s t : Subscription) → sub_beq s t ≡ true → s ≡ t
sub_beq_iff→ (trades a) (trades b) h = ground (arith, text_eq.beq_iff a b)
sub_beq_iff→ (l2_book a f n m) (l2_book b g k l) h =
    ground (arith, text_eq.beq_iff a b, option_beq_iff f g, option_beq_iff n k, option_beq_iff m l)
sub_beq_iff→ (l4_book a) (l4_book b) h = ground (arith, text_eq.beq_iff a b)
sub_beq_iff→ (trades a) (l2_book b g k l) h = cc
sub_beq_iff→ (trades a) (l4_book b) h = cc
sub_beq_iff→ (l2_book a f n m) (trades b) h = cc
sub_beq_iff→ (l2_book a f n m) (l4_book b) h = cc
sub_beq_iff→ (l4_book a) (trades b) h = cc
sub_beq_iff→ (l4_book a) (l2_book b g k l) h = cc

pub subscription_eq_law :
    (s t : Subscription) → (sub_beq s t ≡ true → s ≡ t) × (s ≡ t → sub_beq s t ≡ true)
subscription_eq_law s t =
    (sub_beq_iff→ s t, λ same. subst (λ u. sub_beq s u ≡ true) same (sub_beq_refl s))

instance abbrev pub subscription_eq : Eq Subscription
subscription_eq = record { beq = sub_beq; beq_iff = subscription_eq_law }
