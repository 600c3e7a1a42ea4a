-- ===== src/External.antt =====
-- predicates/external: the functions that Meld programs call.
pub mod Lists
