-- ===== src/Domain/Enums/Entity.antt =====
-- domain/enums.py: the types of the entities that jobs and edges name, told apart by their position
-- in the class.
use trustworthy_personal_kno.Prelude.{ℕ, ◌≡◌, arith, Eq, eq_of_code}

pub data EntityType : Type 0 where
  source source_version content_block claim evidence quality_check : EntityType
  knowledge_change knowledge_note curated_version index_generation index_job model_run : EntityType

abbrev pub entity_type_code : EntityType → ℕ
entity_type_code source = 0
entity_type_code source_version = 1
entity_type_code content_block = 2
entity_type_code claim = 3
entity_type_code evidence = 4
entity_type_code quality_check = 5
entity_type_code knowledge_change = 6
entity_type_code knowledge_note = 7
entity_type_code curated_version = 8
entity_type_code index_generation = 9
entity_type_code index_job = 10
entity_type_code model_run = 11

pub entity_type_code-injective :
    (a b : EntityType) → entity_type_code a ≡ entity_type_code b → a ≡ b
entity_type_code-injective a b h = ground arith

instance abbrev pub entity_type_eq : Eq EntityType
entity_type_eq = eq_of_code entity_type_code entity_type_code-injective
