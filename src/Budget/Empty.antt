-- ===== src/Budget/Empty.antt =====
-- The accounts of queues and tables that are empty.
use xgc2_adapter_runtime_cli.Base.{ℕ, [], refl, arith, find, size, sum_map}
use xgc2_adapter_runtime_cli.Budget.{IsBounded, IsSourceTable}

pub IsBounded-nil :
    {A : Type 0} (bytes_of : A → ℕ) (entries limit : ℕ) → IsBounded bytes_of [] 0 entries limit
IsBounded-nil bytes_of entries limit = record {
  counted = refl;
  within = omega arith;
  short = omega arith;
}

pub IsSourceTable-nil :
    (open_limit identities limit : ℕ) → IsSourceTable [] [] 0 open_limit identities limit
unfolding find sum_map size
IsSourceTable-nil open_limit identities limit = record {
  streams_distinct = tt;
  closed_distinct = tt;
  apart = λ id x e. refl;
  counted = refl;
  within = omega arith;
  few = omega arith;
  short = omega arith;
}
