-- ===== src/Dynamo/Queries.antt =====
-- The queries that the manager sends, and what comes back.
use pl8_base.Base.{ℕ, Bool, Option, List}
use pl8_base.Base.Text.{Text}
use pl8_base.Base.Json.{Fields}
use pl8_base.Dynamo.Rows.{Item}

-- The sort key's part of a KeyConditionExpression.
pub data SortCondition : Type 0 where
  any_sort_key : SortCondition
  begins_with : Text → SortCondition
  between : Text → Text → SortCondition

-- The parameters of a query; the partition key is GSI1PK for the index, PK for the table.
pub record Query : Type 0 where
  pub on_index : Bool
  pub partition : Text
  pub sort : SortCondition
  pub forward : Bool
  pub consistent : Bool
  pub limit : Option ℕ
  pub start : Option Fields

-- A query's answer: the rows, and the LastEvaluatedKey where there is one.
pub record Page : Type 0 where
  pub items : List Item
  pub last_key : Option Fields
