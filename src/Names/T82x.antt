-- ===== src/Names/T82x.antt =====
-- hwc_names.hpp: the counter names of the T82x GPUs, 64 for each of the four blocks in the order of
-- their memory layout. An empty name is a hole in the block.
use hwcpipe.Common.{String, List, [], ◌∷◌, ◌++◌}

abbrev pub job_manager : List String
job_manager =
    "" ∷ "" ∷ "" ∷ "" ∷ "T82x_MESSAGES_SENT" ∷ "T82x_MESSAGES_RECEIVED" ∷ "T82x_GPU_ACTIVE"
    ∷ "T82x_IRQ_ACTIVE" ∷ "T82x_JS0_JOBS" ∷ "T82x_JS0_TASKS" ∷ "T82x_JS0_ACTIVE" ∷ ""
    ∷ "T82x_JS0_WAIT_READ" ∷ "T82x_JS0_WAIT_ISSUE" ∷ "T82x_JS0_WAIT_DEPEND" ∷ "T82x_JS0_WAIT_FINISH"
    ∷ "T82x_JS1_JOBS" ∷ "T82x_JS1_TASKS" ∷ "T82x_JS1_ACTIVE" ∷ "" ∷ "T82x_JS1_WAIT_READ"
    ∷ "T82x_JS1_WAIT_ISSUE" ∷ "T82x_JS1_WAIT_DEPEND" ∷ "T82x_JS1_WAIT_FINISH" ∷ "T82x_JS2_JOBS"
    ∷ "T82x_JS2_TASKS" ∷ "T82x_JS2_ACTIVE" ∷ "" ∷ "T82x_JS2_WAIT_READ" ∷ "T82x_JS2_WAIT_ISSUE"
    ∷ "T82x_JS2_WAIT_DEPEND" ∷ "T82x_JS2_WAIT_FINISH" ∷ "" ∷ "" ∷ "" ∷ "" ∷ "" ∷ "" ∷ "" ∷ "" ∷ ""
    ∷ "" ∷ "" ∷ "" ∷ "" ∷ "" ∷ "" ∷ "" ∷ "" ∷ "" ∷ "" ∷ "" ∷ "" ∷ "" ∷ "" ∷ "" ∷ "" ∷ "" ∷ "" ∷ ""
    ∷ "" ∷ "" ∷ "" ∷ "" ∷ []

abbrev pub tiler : List String
tiler =
    "" ∷ "" ∷ "" ∷ "T82x_TI_JOBS_PROCESSED" ∷ "T82x_TI_TRIANGLES" ∷ "T82x_TI_QUADS"
    ∷ "T82x_TI_POLYGONS" ∷ "T82x_TI_POINTS" ∷ "T82x_TI_LINES" ∷ "T82x_TI_FRONT_FACING"
    ∷ "T82x_TI_BACK_FACING" ∷ "T82x_TI_PRIM_VISIBLE" ∷ "T82x_TI_PRIM_CULLED"
    ∷ "T82x_TI_PRIM_CLIPPED" ∷ "" ∷ "" ∷ "" ∷ "" ∷ "" ∷ "" ∷ "" ∷ "" ∷ "T82x_TI_ACTIVE" ∷ "" ∷ ""
    ∷ "" ∷ "" ∷ "" ∷ "" ∷ "" ∷ "" ∷ "" ∷ "" ∷ "" ∷ "" ∷ "" ∷ "" ∷ "" ∷ "" ∷ "" ∷ "" ∷ "" ∷ "" ∷ ""
    ∷ "" ∷ "" ∷ "" ∷ "" ∷ "" ∷ "" ∷ "" ∷ "" ∷ "" ∷ "" ∷ "" ∷ "" ∷ "" ∷ "" ∷ "" ∷ "" ∷ "" ∷ "" ∷ ""
    ∷ "" ∷ []

abbrev pub shader : List String
shader =
    "" ∷ "" ∷ "" ∷ "" ∷ "T82x_FRAG_ACTIVE" ∷ "T82x_FRAG_PRIMITIVES" ∷ "T82x_FRAG_PRIMITIVES_DROPPED"
    ∷ "T82x_FRAG_CYCLES_DESC" ∷ "T82x_FRAG_CYCLES_FPKQ_ACTIVE" ∷ "T82x_FRAG_CYCLES_VERT"
    ∷ "T82x_FRAG_CYCLES_TRISETUP" ∷ "T82x_FRAG_CYCLES_EZS_ACTIVE" ∷ "T82x_FRAG_THREADS"
    ∷ "T82x_FRAG_DUMMY_THREADS" ∷ "T82x_FRAG_QUADS_RAST" ∷ "T82x_FRAG_QUADS_EZS_TEST"
    ∷ "T82x_FRAG_QUADS_EZS_KILLED" ∷ "T82x_FRAG_THREADS_LZS_TEST" ∷ "T82x_FRAG_THREADS_LZS_KILLED"
    ∷ "T82x_FRAG_CYCLES_NO_TILE" ∷ "T82x_FRAG_NUM_TILES" ∷ "T82x_FRAG_TRANS_ELIM"
    ∷ "T82x_COMPUTE_ACTIVE" ∷ "T82x_COMPUTE_TASKS" ∷ "T82x_COMPUTE_THREADS"
    ∷ "T82x_COMPUTE_CYCLES_DESC" ∷ "T82x_TRIPIPE_ACTIVE" ∷ "T82x_ARITH_WORDS"
    ∷ "T82x_ARITH_CYCLES_REG" ∷ "T82x_ARITH_CYCLES_L0" ∷ "T82x_ARITH_FRAG_DEPEND" ∷ "T82x_LS_WORDS"
    ∷ "T82x_LS_ISSUES" ∷ "T82x_LS_REISSUE_ATTR" ∷ "T82x_LS_REISSUES_VARY" ∷ "T82x_LS_VARY_RV_MISS"
    ∷ "T82x_LS_VARY_RV_HIT" ∷ "T82x_LS_NO_UNPARK" ∷ "T82x_TEX_WORDS" ∷ "T82x_TEX_BUBBLES"
    ∷ "T82x_TEX_WORDS_L0" ∷ "T82x_TEX_WORDS_DESC" ∷ "T82x_TEX_ISSUES" ∷ "T82x_TEX_RECIRC_FMISS"
    ∷ "T82x_TEX_RECIRC_DESC" ∷ "T82x_TEX_RECIRC_MULTI" ∷ "T82x_TEX_RECIRC_PMISS"
    ∷ "T82x_TEX_RECIRC_CONF" ∷ "T82x_LSC_READ_HITS" ∷ "T82x_LSC_READ_OP" ∷ "T82x_LSC_WRITE_HITS"
    ∷ "T82x_LSC_WRITE_OP" ∷ "T82x_LSC_ATOMIC_HITS" ∷ "T82x_LSC_ATOMIC_OP" ∷ "T82x_LSC_LINE_FETCHES"
    ∷ "T82x_LSC_DIRTY_LINE" ∷ "T82x_LSC_SNOOPS" ∷ "T82x_AXI_TLB_STALL" ∷ "T82x_AXI_TLB_MISS"
    ∷ "T82x_AXI_TLB_TRANSACTION" ∷ "T82x_LS_TLB_MISS" ∷ "T82x_LS_TLB_HIT" ∷ "T82x_AXI_BEATS_READ"
    ∷ "T82x_AXI_BEATS_WRITTEN" ∷ []

abbrev pub memory_system : List String
memory_system =
    "" ∷ "" ∷ "" ∷ "" ∷ "T82x_MMU_HIT" ∷ "T82x_MMU_NEW_MISS" ∷ "T82x_MMU_REPLAY_FULL"
    ∷ "T82x_MMU_REPLAY_MISS" ∷ "T82x_MMU_TABLE_WALK" ∷ "T82x_MMU_REQUESTS" ∷ "" ∷ ""
    ∷ "T82x_UTLB_HIT" ∷ "T82x_UTLB_NEW_MISS" ∷ "T82x_UTLB_REPLAY_FULL" ∷ "T82x_UTLB_REPLAY_MISS"
    ∷ "T82x_UTLB_STALL" ∷ "" ∷ "" ∷ "" ∷ "" ∷ "" ∷ "" ∷ "" ∷ "" ∷ "" ∷ "" ∷ "" ∷ "" ∷ ""
    ∷ "T82x_L2_EXT_WRITE_BEATS" ∷ "T82x_L2_EXT_READ_BEATS" ∷ "T82x_L2_ANY_LOOKUP"
    ∷ "T82x_L2_READ_LOOKUP" ∷ "T82x_L2_SREAD_LOOKUP" ∷ "T82x_L2_READ_REPLAY" ∷ "T82x_L2_READ_SNOOP"
    ∷ "T82x_L2_READ_HIT" ∷ "T82x_L2_CLEAN_MISS" ∷ "T82x_L2_WRITE_LOOKUP" ∷ "T82x_L2_SWRITE_LOOKUP"
    ∷ "T82x_L2_WRITE_REPLAY" ∷ "T82x_L2_WRITE_SNOOP" ∷ "T82x_L2_WRITE_HIT" ∷ "T82x_L2_EXT_READ_FULL"
    ∷ "" ∷ "T82x_L2_EXT_WRITE_FULL" ∷ "T82x_L2_EXT_R_W_HAZARD" ∷ "T82x_L2_EXT_READ"
    ∷ "T82x_L2_EXT_READ_LINE" ∷ "T82x_L2_EXT_WRITE" ∷ "T82x_L2_EXT_WRITE_LINE"
    ∷ "T82x_L2_EXT_WRITE_SMALL" ∷ "T82x_L2_EXT_BARRIER" ∷ "T82x_L2_EXT_AR_STALL"
    ∷ "T82x_L2_EXT_R_BUF_FULL" ∷ "T82x_L2_EXT_RD_BUF_FULL" ∷ "T82x_L2_EXT_R_RAW"
    ∷ "T82x_L2_EXT_W_STALL" ∷ "T82x_L2_EXT_W_BUF_FULL" ∷ "T82x_L2_EXT_R_BUF_FULL"
    ∷ "T82x_L2_TAG_HAZARD" ∷ "T82x_L2_SNOOP_FULL" ∷ "T82x_L2_REPLAY_FULL" ∷ []

unfoldable pub hardware_counters : List String
hardware_counters = job_manager ++ (tiler ++ (shader ++ memory_system))
