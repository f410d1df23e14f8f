-- ===== src/Filing/Verdict.antt =====
-- How a step of the strict parse and one of the lenient parse compare.
use hardmoney.Prelude.{◌≡◌, ◌⊎◌, inl, inr, refl, sym, ap, ◌∙◌}
use hardmoney.Prelude.Result.{Result, ok, err, ◌>>=◌, bind_succeeded}
use hardmoney.Error.{FecError}
use hardmoney.Filing.{strict, lenient}
use hardmoney.Filing.Body.{BodyAccumulator, State}
use hardmoney.Filing.Strict.{with_options, IsClean, Skipped, Outcome, StaysSkipped}

abbrev pub tight : State → State
tight st = record st { acc = with_options strict st.acc }

abbrev pub loose : State → State
loose st = record st { acc = with_options lenient st.acc }

-- From where nothing was skipped: both go on so, or the strict one fails, and if the lenient one
-- goes on it has skipped a line for the strict one's error.
abbrev pub Verdict : Result FecError State → Result FecError State → Type 0
Verdict r s =
    ((st : State) × (r ≡ ok (tight st)) × (s ≡ ok (loose st)) × IsClean st.acc)
    ⊎ ((e : FecError) × (r ≡ err e)
        × ((end : State) → s ≡ ok end → (st : State) × (end ≡ loose st) × Skipped e st.acc))

-- From where a line was skipped for an error, a lenient step stays so.
abbrev pub Stays : FecError → Result FecError State → Type 0
Stays e s = (end : State) → s ≡ ok end → (st : State) × (end ≡ loose st) × Skipped e st.acc

abbrev pub done : State → Result FecError State
done st = ok st

pub ok_injective : (a b : State) → done a ≡ done b → a ≡ b
ok_injective a b h = cc

pub bind_Verdict :
    (r s : Result FecError State) (f : State → Result FecError State)
    → Verdict r s
    → ((st : State) → IsClean st.acc → Verdict (f (tight st)) (f (loose st)))
    → ((e : FecError) (st : State) → Skipped e st.acc → Stays e (f (loose st)))
    → Verdict (r >>= f) (s >>= f)
bind_Verdict r s f (inl (st, p, q, c)) clean stays = rw (p, q) (clean st c)
bind_Verdict r s f (inr (e, p, q)) clean stays = inr (
  e,
  ap (λ (x : Result FecError State). x >>= f) p,
  λ end h.
      let (mid, first, rest) = bind_succeeded s f end h in
      let (st, same, k) = q mid first in stays e st k end (ap f (sym same) ∙ rest),
)

pub bind_Stays :
    (e : FecError) (s : Result FecError State) (f : State → Result FecError State)
    → Stays e s
    → ((st : State) → Skipped e st.acc → Stays e (f (loose st)))
    → Stays e (s >>= f)
bind_Stays e s f h g end k =
    let (mid, first, rest) = bind_succeeded s f end k in
    let (st, same, d) = h mid first in g st d end (ap f (sym same) ∙ rest)

-- An outcome of the collector, as one of the state.
pub acc_Verdict :
    (st : State) (r s : Result FecError BodyAccumulator)
    → Outcome r s
    → Verdict (r >>= λ a. ok (record st { acc = a })) (s >>= λ a. ok (record st { acc = a }))
acc_Verdict st r s (inl (acc, p, q, c)) = inl (record st { acc = acc }, rw p refl, rw q refl, c)
acc_Verdict st r s (inr (inl (e, p, q))) = inr (e, rw p refl, λ end h. cc (q, h))
acc_Verdict st r s (inr (inr (e, acc, p, q, k))) = inr (
  e,
  rw p refl,
  λ end h. (
    record st { acc = acc },
    ok_injective end (record st { acc = with_options lenient acc }) (sym (rw q at h)),
    k,
  ),
)

pub acc_Stays :
    (st : State) (e : FecError) (s : Result FecError BodyAccumulator)
    → StaysSkipped e s
    → Stays e (s >>= λ a. ok (record st { acc = a }))
acc_Stays st e s g end h =
    let (acc', first, rest) = bind_succeeded s (λ a. ok (record st { acc = a })) end h in
    let (acc, same, k) = g acc' first in
    (
      record st { acc = acc },
      ok_injective end _ (sym (ap (λ a. ok (record st { acc = a })) (sym same) ∙ rest)),
      k,
    )
