-- ===== src/Cache/Tables.antt =====
-- cache.rs: the four tables, by their schemas, and the forms of SQL statement that the program uses.
-- A table is the list of its rows in the order of their row ids.
pub mod Laws
use frl_online_proxy.Prelude.{
  String, Bool, true, false, not, ◌&&◌, Option, none, some, List, [], ◌∷◌, ◌++◌, ◌==◌, keep, find,
}

pub record ActivationRequestRow : Type 0 where
  pub activation_key : String
  pub deactivation_key : String
  pub api_key : String
  pub request_id : String
  pub session_id : String
  pub device_date : String
  pub package_id : String
  pub asnp_id : String
  pub device_id : String
  pub os_user_id : String
  pub is_vdi : Bool
  pub is_domain_user : Bool
  pub is_virtual : Bool
  pub os_name : String
  pub os_version : String
  pub app_id : String
  pub app_version : String
  pub ngl_version : String
  pub timestamp : String

pub record ActivationResponseRow : Type 0 where
  pub activation_key : String
  pub deactivation_key : String
  pub body : String
  pub timestamp : String

pub record DeactivationRequestRow : Type 0 where
  pub deactivation_key : String
  pub api_key : String
  pub request_id : String
  pub package_id : String
  pub device_id : String
  pub os_user_id : String
  pub is_domain_user : Bool
  pub is_vdi : Bool
  pub is_virtual : Bool
  pub timestamp : String

pub record DeactivationResponseRow : Type 0 where
  pub deactivation_key : String
  pub body : String
  pub timestamp : String

pub record Tables : Type 0 where
  pub activation_requests : List ActivationRequestRow
  pub deactivation_requests : List DeactivationRequestRow
  pub activation_responses : List ActivationResponseRow
  pub deactivation_responses : List DeactivationResponseRow

abbrev pub empty : Tables
empty = record {
  activation_requests = [];
  deactivation_requests = [];
  activation_responses = [];
  deactivation_responses = [];
}

-- `delete from t where col = k`, `insert or replace into t` under a unique key column, and the first
-- row of `select … from t where col = k`.
module _ {R : Type 0} (col : R → String) where
  unfoldable pub delete_where : String → List R → List R
  delete_where k rows = keep (λ r. not (col r == k)) rows

  unfoldable pub insert_or_replace : R → List R → List R
  insert_or_replace row rows = delete_where (col row) rows ++ row ∷ []

  unfoldable pub select_where : String → List R → Option R
  select_where k rows = find (λ r. col r == k) rows
