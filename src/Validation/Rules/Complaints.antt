-- ===== src/Validation/Rules/Complaints.antt =====
-- Validate finds nothing to complain of exactly in a struct that obeys its rules.
