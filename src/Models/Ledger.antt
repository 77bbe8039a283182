-- ===== src/Models/Ledger.antt =====
-- app/models/ledger.py: accounts that bear a balance, and the entries of the ledger.
use payment_gateway_system.Prelude.{String, Bool, true, false, Option}
use payment_gateway_system.Prelude.Int.{ℤ}
use payment_gateway_system.Models.Payment.{Uuid}

pub data AccountType : Type 0 where
  virtual merchant_settlement platform_fee : AccountType

pub data EntryType : Type 0 where
  debit credit : EntryType

abbrev pub eq_account_type : AccountType → AccountType → Bool
eq_account_type AccountType.virtual AccountType.virtual = true
eq_account_type AccountType.merchant_settlement AccountType.merchant_settlement = true
eq_account_type AccountType.platform_fee AccountType.platform_fee = true
eq_account_type _ _ = false

pub record LedgerAccount : Type 0 where
  pub id : Uuid
  pub merchant_id : Option Uuid
  pub account_type : AccountType
  pub identifier : String
  pub currency : String
  pub balance : ℤ

pub record LedgerEntry : Type 0 where
  pub id : Uuid
  pub account_id : Uuid
  pub transaction_id : Uuid
  pub amount : ℤ
  pub entry_type : EntryType
  pub currency : String

-- The default of both `currency` columns.
abbrev pub default_currency : String
default_currency = "INR"
