-- ===== src/Db/Collection.antt =====
-- What the repositories use of the MongoDB driver. The driver is outside the repository, so a
-- collection is a record of its operations on an unknown state `E`.
use kenshu_elaris_project_pa.Base.{ℕ, List}
use kenshu_elaris_project_pa.Go.Text.{GoString}
use kenshu_elaris_project_pa.Go.Time.{Time}
use kenshu_elaris_project_pa.Errors.{GoError}
use kenshu_elaris_project_pa.Document.Invoice.{ObjectId}

pub data BsonValue : Type 0 where
  text : GoString → BsonValue
  time : Time → BsonValue
  object_id : ObjectId → BsonValue

-- bson.M with a value for each field: a filter by equality, or the operand of $set.
abbrev pub BsonM : Type 0
BsonM = List (GoString × BsonValue)

-- FindOne and Decode: a document, mongo.ErrNoDocuments, or any other error.
pub data FindResult (D : Type 0) : Type 0 where
  found : D → FindResult D
  no_documents : GoError → FindResult D
  find_failed : GoError → FindResult D

-- InsertOne: the inserted identifier, one of another type (by the name of the type), an error for
-- which mongo.IsDuplicateKeyError holds, or any other error.
pub data InsertResult : Type 0 where
  inserted : ObjectId → InsertResult
  inserted_other : GoString → InsertResult
  duplicate_key : GoError → InsertResult
  insert_failed : GoError → InsertResult

-- UpdateOne: the matched count, or an error.
pub data UpdateResult : Type 0 where
  matched : ℕ → UpdateResult
  update_failed : GoError → UpdateResult

pub record Collection (E D : Type 0) : Type 0 where
  pub find_one : BsonM → E → FindResult D × E
  pub insert_one : D → E → InsertResult × E
  pub update_one : BsonM → BsonM → E → UpdateResult × E
  pub err_no_documents : GoError
