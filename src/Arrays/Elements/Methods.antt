-- ===== src/Arrays/Elements/Methods.antt =====
-- [[Get]] and [[Set]] of an array of runtime/ejs-array.c at names that are indices.
