-- ===== src/Api.antt =====
-- The messages of api/v0/expression.pb.go: values and expression trees, with the getters that Go's
-- protobuf generator gives them. A getter on a nil message, or on one whose oneof holds another
-- variant, returns the zero value.
pub mod Value
pub mod Expression
