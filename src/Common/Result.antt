-- ===== src/Common/Result.antt =====
-- `eyre::Result<A>`, with the errors of a component in place of reports, and `?` as `>>=`.

pub data Result (E A : Type 0) : Type 0 where
  err : E → Result E A
  ok : A → Result E A

infixl 5 ◌>>=◌
abbrev pub ◌>>=◌ : {E A B : Type 0} → Result E A → (A → Result E B) → Result E B
err error >>= rest = err error
ok value >>= rest = rest value
